-- ===== src/App/Slots.antt =====
-- The per-key concurrency guard and the session key of devin_proxy/app.py.
use devin_proxy.Prelude.{
  ℕ, zero, suc, ◌-◌, ◌≤◌, Text, codes, Bool, true, false, ◌≡◌, refl, ap, ◌∙◌, subst, sym, Option,
  none, some, List, [], ◌∷◌, ◌++◌, Dict, lookup, insert, lookup-insert, nat_eq, nat_beq,
  nat_beq_iff, leb, if◌then◌else◌, arith, Bool-cases, inl, inr, or_else, take, join, is_empty,
  ==_self,
}
use devin_proxy.Accounts.Account.{or_zero}

-- `app.state.key_slots`
abbrev pub Slots : Type 0
Slots = Dict ℕ ℕ

abbrev pub used : Slots → ℕ → ℕ
used s kid = or_zero (lookup kid s)

-- The row of a key that the admin created: its id and its limit (`none` for the master key).
abbrev pub KeyRow : Type 0
KeyRow = ℕ × Option ℕ

-- What is released at the end: nothing, or the key's slot.
pub data Slot : Type 0 where
  free : Slot
  held : ℕ → Slot

-- `acquire_key_slot`: `none` at the cap
unfoldable pub acquire : Option KeyRow → Slots → Slots × Option Slot
acquire none s = (s, some free)
acquire (some (kid, limit)) s =
    if nat_beq (or_zero limit) 0
    then (s, some free)
    else if leb (or_zero limit) (used s kid)
    then (s, none)
    else (insert kid (suc (used s kid)) s, some (held kid))

unfoldable pub release : Slot → Slots → Slots
release free s = s
release (held kid) s = insert kid (used s kid - 1) s

used-insert :
    (k i v : ℕ) (s : Slots) → used (insert k v s) i ≡ (if nat_beq k i then v else used s i)
used-insert k i v s =
    ap or_zero (lookup-insert k i v s)
    ∙ elim (Bool-cases (nat_beq k i)) [ inl e ↦ rw e refl | inr e ↦ rw e refl ]

pub not_none :
    (b : Bool) (s t : Slots) (kid : ℕ) (slot : Slot)
    → (if◌then◌else◌ {A = Slots × Option Slot} b (s, none) (t, some (held kid))).1 ≡ some slot
    → (b ≡ false) × (held kid ≡ slot)
not_none true s t kid slot h = cc
not_none false s t kid slot h = (refl, some_inj h)
  where
    some_inj : {a b : Slot} → some a ≡ some b → a ≡ b
    some_inj h = cc

suc_not_zero : (n : ℕ) → nat_beq (suc n) 0 ≡ false
suc_not_zero n = ground arith

pub not_leb : (a b : ℕ) → leb a b ≡ false → suc b ≤ a
not_leb a b h = ground arith

pub used_self : (k v : ℕ) (s : Slots) → used (insert k v s) k ≡ v
used_self k v s = used-insert k k v s ∙ rw (==_self k) refl

pub given_back :
    (kid i : ℕ) (s : Slots)
    → used (release (held kid) (insert kid (suc (used s kid)) s)) i ≡ used s i
unfolding release
given_back kid i s =
    used-insert kid i (used (insert kid (suc (used s kid)) s) kid - 1)
      (insert kid (suc (used s kid)) s)
    ∙ elim (Bool-cases (nat_beq kid i)) [
      | inl e ↦
          rw e (
            omega
              (arith, used_self kid (suc (used s kid)) s, ap (used s) ((nat_beq_iff kid i).0 e)))
      | inr e ↦ rw e (used-insert kid i (suc (used s kid)) s ∙ rw e refl)
    ]

-- A slot that is given and given back leaves every key's count as it was; while it is held, the
-- count of a key with a limit is at most that limit if it was.
pub release-acquire :
    (kid limit i : ℕ) (s : Slots) (slot : Slot)
    → (acquire (some (kid, some (suc limit))) s).1 ≡ some slot
    → (used (release slot (acquire (some (kid, some (suc limit))) s).0) i ≡ used s i)
      × (used (acquire (some (kid, some (suc limit))) s).0 kid ≤ suc limit)
unfolding acquire
release-acquire kid limit i s slot h =
    let given = insert kid (suc (used s kid)) s in
    let c =
      not_none (leb (suc limit) (used s kid)) s given kid slot (rw (suc_not_zero limit) at h) in
    rw (suc_not_zero limit, c.0)
      (
        subst (λ x. used (release x given) i ≡ used s i) c.1 (given_back kid i s),
        subst (λ n. n ≤ suc limit) (sym (used_self kid (suc (used s kid)) s))
            (not_leb (suc limit) (used s kid) c.0),
      )

-- The count of a key with a limit is at most the limit.
abbrev pub IsWithin : Option KeyRow → Slots → Type 0
IsWithin (some (kid, some (suc limit))) s = used s kid ≤ suc limit
IsWithin _ s = Unit

-- What `acquire_key_slot` has done: nothing at the cap, and otherwise a count within the limit, which the
-- slot's release takes back.
abbrev pub HasSlot : Option KeyRow → Slots → Slots × Option Slot → Type 0
HasSlot key s (t, none) = t ≡ s
HasSlot key s (t, some slot) = IsWithin key t × ((i : ℕ) → used (release slot t) i ≡ used s i)

pub acquire-HasSlot : (key : Option KeyRow) (s : Slots) → HasSlot key s (acquire key s)
unfolding acquire release
acquire-HasSlot none s = (tt, λ i. refl)
acquire-HasSlot (some (kid, none)) s = (tt, λ i. refl)
acquire-HasSlot (some (kid, some zero)) s = (tt, λ i. refl)
acquire-HasSlot (some (kid, some (suc limit))) s =
    by_zero (nat_beq (suc limit) 0) (suc_not_zero limit)
  where
    by_limit :
        (b : Bool)
        → leb (suc limit) (used s kid) ≡ b
        → HasSlot
            (some (kid, some (suc limit)))
            s
            (if b then (s, none) else (insert kid (suc (used s kid)) s, some (held kid)))
    by_limit true e = refl
    by_limit false e = (
      subst (λ n. n ≤ suc limit) (sym (used_self kid (suc (used s kid)) s))
          (not_leb (suc limit) (used s kid) e),
      λ i. given_back kid i s,
    )

    by_zero :
        (b : Bool)
        → b ≡ false
        → HasSlot (some (kid, some (suc limit))) s (
            if b
            then (s, some free)
            else if leb (suc limit) (used s kid)
            then (s, none)
            else (insert kid (suc (used s kid)) s, some (held kid)))
    by_zero true e = cc
    by_zero false e = by_limit (leb (suc limit) (used s kid)) refl

-- What `session_key_for` reads: the explicit ids, the user, and the first messages as
-- role and text (`None` where a message has no content).
pub record Asked : Type 0 where
  pub session_id : Option Text
  pub conversation_id : Option Text
  pub header_session : Option Text
  pub header_conversation : Option Text
  pub user : Option Text
  pub prompt_cache_key : Option Text
  pub metadata_user : Option Text
  pub messages : List (Text × Text)

part_of : Text × Text → Text
part_of (role, text) = role ++ (codes ":" ++ take 2000 text)

-- `session_key_for`; `sha256` gives the hexadecimal digest.
unfoldable pub session_key_for : (Text → Text) → Asked → Option Text
unfolding part_of
session_key_for sha256 q =
    let sid =
      or_else q.session_id
        (or_else q.conversation_id (or_else q.header_session (or_else q.header_conversation []))) in
    let user = or_else q.user (or_else q.prompt_cache_key (or_else q.metadata_user [])) in
    let by_messages : Option Text = elim (take 2 q.messages) [
      | [] ↦ none
      | m ∷ ms ↦ some (
          codes "h:"
          ++ take 32 (
              sha256
                (join (codes "|") (part_of m ∷ elim ms [ [] ↦ [] | n ∷ ns ↦ part_of n ∷ [] ]))))
    ] in
    if is_empty sid
    then (if is_empty user then by_messages else some (codes "u:" ++ take 128 user))
    else some (codes "s:" ++ take 128 sid)
