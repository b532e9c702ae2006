-- ===== src/Admin/Tokens.antt =====
-- Tokens that are issued and tokens that are accepted.
use devin_proxy.Prelude.{
  ℕ, zero, suc, ◌+◌, ◌*◌, ◌/◌, ◌%◌, Text, codes, Bool, true, false, ◌≡◌, ◌≢◌, refl, ap, ◌∙◌, sym,
  Option, some, [], ◌∷◌, ◌++◌, text_beq, text_beq_iff, ltb, if◌then◌else◌, arith, Bool-cases, inl,
  inr, not, nat_beq, nat_beq_iff, count_char, text_eq,
}
use devin_proxy.Data.{decimal, digits_of}
use devin_proxy.Models.Names.{partition}
use devin_proxy.Admin.Session.{
  sess_ttl, ws_ticket_ttl, is_expired, sess_token, ws_ticket, check_token, sess_ok, ws_ticket_ok,
}

partition-append :
    (sep : ℕ) (s r : Text) → count_char sep s ≡ 0 → partition sep (s ++ sep ∷ r) ≡ (s, r)
unfolding partition count_char
partition-append sep [] r h = rw ((nat_beq_iff sep sep).1 refl) refl
partition-append sep (c ∷ s) r h = elim (Bool-cases (nat_beq c sep)) [
  | inl e ↦ absurd (one_more (rw e at h))
  | inr e ↦ rw (e, partition-append sep s r (rw e at h)) refl
]
  where
    one_more : {n : ℕ} → suc n ≡ 0 → ⊥
    one_more h = omega arith

count_char-append : (c : ℕ) (s t : Text) → count_char c (s ++ t) ≡ count_char c s + count_char c t
unfolding count_char
count_char-append c [] t = omega arith
count_char-append c (d ∷ s) t = ground (arith, count_char-append c s t)

digit_no_dot : (d : ℕ) → nat_beq (b'0' + d) b'.' ≡ false
digit_no_dot d = ground arith

digits_no_dot : (f n : ℕ) → count_char b'.' (digits_of f n) ≡ 0
unfolding count_char digits_of
digits_no_dot zero n = refl
digits_no_dot (suc f) n = elim (Bool-cases (ltb n 10)) [
  | inl e ↦ rw (e, digit_no_dot n) refl
  | inr e ↦ rw e (
      count_char-append b'.' (digits_of f (n / 10)) ((b'0' + n % 10) ∷ [])
      ∙ rw (digits_no_dot f (n / 10), digit_no_dot (n % 10)) refl)
]

decimal_no_dot : (n : ℕ) → count_char b'.' (decimal n) ≡ 0
unfolding decimal
decimal_no_dot n = digits_no_dot (suc n) n

has_dot : (s r : Text) → nat_beq (count_char b'.' (s ++ b'.' ∷ r)) 0 ≡ false
unfolding count_char
has_dot s r = rw (count_char-append b'.' s (b'.' ∷ r)) (ground arith)

accept : (b : Bool) (s : Text) → (if b then false else text_beq s s) ≡ not b
accept true s = refl
accept false s = (text_beq_iff s s).1 refl

refuse : (b : Bool) (s t : Text) → s ≢ t → (if b then false else text_beq s t) ≡ false
refuse true s t h = refl
refuse false s t h = elim (Bool-cases (text_beq s t)) [
  | inl e ↦ absurd (h ((text_beq_iff s t).0 e))
  | inr e ↦ e
]

module _ (hmac : Text → Text → Text) (int : Text → Option ℕ) where
  -- A token that is a time and a signature, the time being one that `int` reads back.
  check_token-pair :
      (key : Text) (signed : ℕ → Text) (now exp : ℕ) (sig : Text)
      → int (decimal exp) ≡ some exp
      → check_token hmac int key signed now (decimal exp ++ (b'.' ∷ sig))
        ≡ (if is_expired exp now then false else text_beq sig (hmac key (signed exp)))
  unfolding check_token
  check_token-pair key signed now exp sig h =
      rw
        (
          check_token,
          has_dot (decimal exp) sig,
          partition-append b'.' (decimal exp) sig (decimal_no_dot exp),
          h,
        )
        (ap
          (λ (q : Text × Text).
            if is_expired exp now then false else text_beq q.1 (hmac key (signed exp)))
          (partition-append b'.' (decimal exp) sig (decimal_no_dot exp)))

  -- With a clock in thousandths of a second: a session token is accepted up to the moment that lies
  -- its lifetime behind the second it was issued in, and at no later one; a ticket of the live feed
  -- likewise. `int` has to read back the numbers that the tokens start with.
  pub sess_ok-sess_token :
      (key : Text) (issued now : ℕ)
      → int (decimal (issued / 1000 + sess_ttl)) ≡ some (issued / 1000 + sess_ttl)
      → int (decimal (issued / 1000 + ws_ticket_ttl)) ≡ some (issued / 1000 + ws_ticket_ttl)
      → (sess_ok hmac int key now (sess_token hmac int key issued)
          ≡ not (ltb ((issued / 1000 + sess_ttl) * 1000) now))
        × (ws_ticket_ok hmac int key now (ws_ticket hmac int key issued)
            ≡ not (ltb ((issued / 1000 + ws_ticket_ttl) * 1000) now))
  unfolding sess_ok sess_token ws_ticket_ok ws_ticket
  sess_ok-sess_token key issued now h k = (
    check_token-pair key decimal now (issued / 1000 + sess_ttl)
          (hmac key (decimal (issued / 1000 + sess_ttl))) h
        ∙ accept (ltb ((issued / 1000 + sess_ttl) * 1000) now)
            (hmac key (decimal (issued / 1000 + sess_ttl))),
    check_token-pair key (λ exp. codes "ws:" ++ decimal exp) now (issued / 1000 + ws_ticket_ttl)
          (hmac key (codes "ws:" ++ decimal (issued / 1000 + ws_ticket_ttl))) k
        ∙ accept (ltb ((issued / 1000 + ws_ticket_ttl) * 1000) now)
            (hmac key (codes "ws:" ++ decimal (issued / 1000 + ws_ticket_ttl))),
  )

  -- `int` reading those numbers back: where the signature of an expiry differs from that of the same expiry in a ticket, a ticket
  -- is no session token and a session token is no ticket, whenever they are presented.
  pub sess_ok-ws_ticket :
      (key : Text) (issued now : ℕ)
      → int (decimal (issued / 1000 + sess_ttl)) ≡ some (issued / 1000 + sess_ttl)
      → int (decimal (issued / 1000 + ws_ticket_ttl)) ≡ some (issued / 1000 + ws_ticket_ttl)
      → hmac key (decimal (issued / 1000 + sess_ttl))
        ≢ hmac key (codes "ws:" ++ decimal (issued / 1000 + sess_ttl))
      → hmac key (decimal (issued / 1000 + ws_ticket_ttl))
        ≢ hmac key (codes "ws:" ++ decimal (issued / 1000 + ws_ticket_ttl))
      → (sess_ok hmac int key now (ws_ticket hmac int key issued) ≡ false)
        × (ws_ticket_ok hmac int key now (sess_token hmac int key issued) ≡ false)
  unfolding sess_ok sess_token ws_ticket_ok ws_ticket
  sess_ok-ws_ticket key issued now h k d e = (
    check_token-pair key decimal now (issued / 1000 + ws_ticket_ttl)
          (hmac key (codes "ws:" ++ decimal (issued / 1000 + ws_ticket_ttl))) k
        ∙ refuse (ltb ((issued / 1000 + ws_ticket_ttl) * 1000) now) _ _ (λ p. e (sym p)),
    check_token-pair key (λ exp. codes "ws:" ++ decimal exp) now (issued / 1000 + sess_ttl)
          (hmac key (decimal (issued / 1000 + sess_ttl))) h
        ∙ refuse (ltb ((issued / 1000 + sess_ttl) * 1000) now) _ _ d,
  )
