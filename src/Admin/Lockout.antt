-- ===== src/Admin/Lockout.antt =====
-- When an address is locked out.
use devin_proxy.Prelude.{
  ℕ, suc, ◌+◌, ◌≤◌, ◌<◌, Text, false, ◌≡◌, ◌↔◌, refl, List, [], ◌∷◌, keep, length, ltb, leb, arith,
  Bool-cases, inl, inr, All, All-imp, subst, leb→le,
}
use devin_proxy.Admin.Login.{Hits, hits_of, expire, retry_after, login_check}

abbrev pub Sorted : List ℕ → Type 0
Sorted [] = Unit
Sorted (t ∷ ts) = All (λ u. t ≤ u) ts × Sorted ts

not_leb : (a b : ℕ) → leb a b ≡ false → b < a
not_leb a b h = ground arith

abbrev pub recent : ℕ → ℕ → List ℕ → List ℕ
recent now win = keep (λ t. ltb now (t + win))

recent_whole : (now win : ℕ) (ts : List ℕ) → All (λ t. now < t + win) ts → recent now win ts ≡ ts
recent_whole now win [] h = refl
recent_whole now win (t ∷ ts) h = ground (arith, recent_whole now win ts h.1)

expire-recent : (now win : ℕ) (ts : List ℕ) → Sorted ts → expire now win ts ≡ recent now win ts
unfolding expire
expire-recent now win [] h = refl
expire-recent now win (t ∷ ts) h = elim (Bool-cases (leb (t + win) now)) [
  | inl e ↦ ground (arith, expire-recent now win ts h.1)
  | inr e ↦ ground (
    arith,
    recent_whole now win ts (All-imp (λ u p. omega (arith, not_leb (t + win) now e)) ts h.0),
  )
]

retry_zero :
    (max win now : ℕ) (ts : List ℕ) → 0 < max → (retry_after max win now ts ≡ 0) ↔ (length ts < max)
unfolding retry_after
retry_zero max win now [] h = ground arith
retry_zero max win now (t ∷ ts) h = elim (Bool-cases (leb max (length (t ∷ ts)))) [
  | inl e ↦
      rw e
        ((λ k. absurd (omega arith)), (λ k. absurd (omega (arith, leb→le max (suc (length ts)) e))))
  | inr e ↦ rw e ((λ k. not_leb max (suc (length ts)) e), (λ k. refl))
]

-- The failed logins of an address being kept in the order of their times, it is let in exactly
-- when fewer than the allowed number of them lie within the window.
pub login_check_lem :
    (max win now : ℕ) (h : Hits) (ip : Text)
    → 0 < max
    → Sorted (hits_of h ip)
    → ((login_check max win now h ip).1 ≡ 0) ↔ (length (recent now win (hits_of h ip)) < max)
unfolding login_check
login_check_lem max win now h ip m s =
    subst (λ (l : List ℕ). ((login_check max win now h ip).1 ≡ 0) ↔ (length l < max))
      (expire-recent now win (hits_of h ip) s)
      (retry_zero max win now (expire now win (hits_of h ip)) m)
