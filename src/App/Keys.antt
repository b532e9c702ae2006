-- ===== src/App/Keys.antt =====
-- The keys of the clients in devin_proxy/app.py: `check_key` and `model_allowed`.
use devin_proxy.Prelude.{
  ℕ, Text, codes, Bool, true, false, Option, none, some, List, [], drop, elem, starts_with,
  text_beq, text_eq, is_empty, if◌then◌else◌, ◌||◌, ◌≡◌, ◌↔◌, refl, ap, subst, arith,
}

-- The row of a key that the admin created.
pub record KeyInfo : Type 0 where
  pub id : ℕ
  pub name : Text
  pub disabled : Bool
  pub models : List Text
  pub max_concurrent : Option ℕ

-- Who calls: the holder of the master key, or of a created key.
pub data Caller : Type 0 where
  master : Caller
  holder : KeyInfo → Caller

-- The token of an Authorization header (empty where there is none).
unfoldable pub bearer : Text → Text
bearer auth = if starts_with auth (codes "Bearer ") then drop 7 auth else []

-- Whether the token is empty, whether it is the master key, and what the store has for it.
abbrev pub verdict : Bool → Bool → Option KeyInfo → Option Caller
verdict true m k = none
verdict false true k = some master
verdict false false none = none
verdict false false (some k) = if k.disabled then none else some (holder k)

-- `none` where it raises 401; `key_info` is the store's lookup.
unfoldable pub check_key : (Text → Option KeyInfo) → Text → Text → Option Caller
unfolding bearer
check_key key_info proxy_key auth =
    let token = bearer auth in verdict (is_empty token) (text_beq token proxy_key) (key_info token)

-- The models that the caller's key is restricted to, if it is.
abbrev pub key_models : Caller → Option (List Text)
key_models master = none
key_models (holder k) = if is_empty k.models then none else some k.models

unfoldable pub model_allowed : Caller → Text → Text → Bool
model_allowed c requested resolved = elim (key_models c) [
  | none ↦ true
  | some allowed ↦ elem requested allowed || elem resolved allowed
]

same_holder : (j k : KeyInfo) → some (holder j) ≡ some (holder k) → j ≡ k
same_holder j k h = cc

accepted :
    (b : Bool) (j k : KeyInfo)
    → (if b then none else some (holder j)) ≡ some (holder k)
    → (b ≡ false) × (j ≡ k)
accepted true j k h = cc
accepted false j k h = (refl, same_holder j k h)

not_master : (b : Bool) (j : KeyInfo) → (if b then none else some (holder j)) ≡ some master → ⊥
not_master true j h = cc
not_master false j h = cc

verdict_master :
    (b m : Bool) (o : Option KeyInfo) → verdict b m o ≡ some master ↔ ((b ≡ false) × (m ≡ true))
verdict_master true m o = (λ h. cc, λ h. absurd (ground arith))
verdict_master false true o = (λ h. (refl, refl), λ h. refl)
verdict_master false false none = (λ h. cc, λ h. absurd (ground arith))
verdict_master false false (some j) =
    (λ h. absurd (not_master j.disabled j h), λ h. absurd (ground arith))

verdict_holder :
    (b m : Bool) (o : Option KeyInfo) (k : KeyInfo)
    → verdict b m o ≡ some (holder k)
      ↔ ((b ≡ false) × (m ≡ false) × (o ≡ some k) × (k.disabled ≡ false))
verdict_holder true m o k = (λ h. cc, λ h. absurd (ground arith))
verdict_holder false true o k = (λ h. cc, λ h. absurd (ground arith))
verdict_holder false false none k = (λ h. cc, λ h. cc)
verdict_holder false false (some j) k = (
  λ h.
      let p = accepted j.disabled j k h in
      (refl, refl, ap some p.1, subst (λ (x : KeyInfo). x.disabled ≡ false) p.1 p.0),
  λ h. rw (some_inj h.2, h.3) refl,
)
  where
    some_inj : some j ≡ some k → j ≡ k
    some_inj h = cc

-- Who is let in. A request is let in as the master exactly when its token is the proxy's key and not
-- empty; as the holder of a created key exactly when its token is neither empty nor the proxy's key,
-- and the store has that key for it, not disabled. Every other token is refused.
pub check_key_lem :
    (key_info : Text → Option KeyInfo) (proxy_key auth : Text) (k : KeyInfo)
    → (check_key key_info proxy_key auth ≡ some master
        ↔ ((is_empty (bearer auth) ≡ false) × (text_beq (bearer auth) proxy_key ≡ true)))
      × (check_key key_info proxy_key auth ≡ some (holder k) ↔ (
          (is_empty (bearer auth) ≡ false)
          × (text_beq (bearer auth) proxy_key ≡ false)
          × (key_info (bearer auth) ≡ some k)
          × (k.disabled ≡ false)))
unfolding check_key
check_key_lem key_info proxy_key auth k = (
  verdict_master (is_empty (bearer auth)) (text_beq (bearer auth) proxy_key)
      (key_info (bearer auth)),
  verdict_holder (is_empty (bearer auth)) (text_beq (bearer auth) proxy_key)
      (key_info (bearer auth)) k,
)
