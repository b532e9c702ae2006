-- ===== src/Admin/Session.antt =====
-- The session cookie and the ticket of the live feed in devin_proxy/admin_ctx.py.
use devin_proxy.Prelude.{
  ℕ, ◌+◌, ◌-◌, ◌*◌, ◌/◌, Text, codes, Bool, false, Option, none, some, ◌∷◌, ◌++◌, text_beq,
  is_empty, starts_with, drop, ltb, ◌&&◌, ◌||◌, if◌then◌else◌, nat_beq, count_char,
}
use devin_proxy.Data.{decimal}
use devin_proxy.Models.Names.{partition}

abbrev pub sess_ttl : ℕ
sess_ttl = 7 * 86400

abbrev pub ws_ticket_ttl : ℕ
ws_ticket_ttl = 60

-- `int(time.time())`: the clock counts thousandths of a second
abbrev pub seconds : ℕ → ℕ
seconds now = now / 1000

-- `exp < time.time()`, for an `exp` in seconds
abbrev pub is_expired : ℕ → ℕ → Bool
is_expired exp now = ltb (exp * 1000) now

-- `hmac.new(key, text, sha256).hexdigest()`, and `int` of a text (`none` where it raises).
module _ (hmac : Text → Text → Text) (int : Text → Option ℕ) where
  unfoldable pub sess_token : Text → ℕ → Text
  sess_token key now =
      let exp = seconds now + sess_ttl in decimal exp ++ (b'.' ∷ hmac key (decimal exp))

  unfoldable pub ws_ticket : Text → ℕ → Text
  ws_ticket key now =
      let exp = seconds now + ws_ticket_ttl in
      decimal exp ++ (b'.' ∷ hmac key (codes "ws:" ++ decimal exp))

  -- What both checks do; `signed` is the text that the signature is of. A token without a dot
  -- does not unpack, and raises.
  unfoldable pub check_token : Text → (ℕ → Text) → ℕ → Text → Bool
  unfolding partition count_char
  check_token key signed now token =
      if nat_beq (count_char b'.' token) 0 then false else elim (int (partition b'.' token).0) [
        | none ↦ false
        | some exp ↦
            if is_expired exp now
            then false
            else text_beq (partition b'.' token).1 (hmac key (signed exp))
      ]

  unfoldable pub sess_ok : Text → ℕ → Text → Bool
  unfolding check_token
  sess_ok key now token = check_token key decimal now token

  unfoldable pub ws_ticket_ok : Text → ℕ → Text → Bool
  unfolding check_token
  ws_ticket_ok key now token = check_token key (λ exp. codes "ws:" ++ decimal exp) now token

  -- `authed`: the cookie and the Authorization header (empty where there is none)
  unfoldable pub authed : Text → ℕ → Text → Text → Bool
  unfolding sess_ok
  authed key now cookie auth =
      sess_ok key now cookie
      || (if is_empty key
          then false
          else starts_with auth (codes "Bearer ") && text_beq (drop 7 auth) key)

  -- `admin_key`: `none` where it raises 401, else whether the cookie is renewed
  unfoldable pub admin_key : Text → ℕ → Text → Text → Option Bool
  unfolding authed partition
  admin_key key now cookie auth =
      if authed key now cookie auth
      then some (elim (int (partition b'.' cookie).0) [
        | none ↦ false
        | some exp ↦ ltb now (exp * 1000) && ltb (2 * (exp * 1000 - now)) (sess_ttl * 1000)
      ])
      else none
