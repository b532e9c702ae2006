-- ===== src/Accounts/Pool/Order.antt =====
-- `cands.sort(key=…)`: the order of loads is total and transitive, and the sort puts a least
-- candidate first.
use devin_proxy.Prelude.{
  ℕ, true, false, ◌≡◌, refl, ◌≢◌, subst, inl, inr, List, [], ◌∷◌, All, All-imp, arith, Bool-cases,
}
use devin_proxy.Accounts.Account.{Account}
use devin_proxy.Accounts.Pool.State.{Pool}
use devin_proxy.Accounts.Pool.Schedule.{load_le, insert_by_load, sort_by_load}

pub load_le_trans : (a b c : Account) → load_le a b ≡ true → load_le b c ≡ true → load_le a c ≡ true
unfolding load_le
load_le_trans a b c h k = ground arith

pub load_le_total : (a b : Account) → load_le a b ≡ false → load_le b a ≡ true
unfolding load_le
load_le_total a b h = ground arith

pub load_le_refl : (a : Account) → load_le a a ≡ true
unfolding load_le
load_le_refl a = ground arith

module _ (p : Pool) where
  -- `r` goes before each of the references.
  abbrev pub IsLeast : ℕ → List ℕ → Type 0
  IsLeast r rs = All (λ s. load_le (p.objs r) (p.objs s) ≡ true) rs

  abbrev IsSorted : List ℕ → Type 0
  IsSorted [] = Unit
  IsSorted (r ∷ rs) = IsLeast r rs × IsSorted rs

  insert-All :
      (Q : ℕ → Type 0) (r : ℕ) (rs : List ℕ) → Q r → All Q rs → All Q (insert_by_load p r rs)
  unfolding insert_by_load
  insert-All Q r [] h hs = (h, tt)
  insert-All Q r (s ∷ rs) h hs = elim (Bool-cases (load_le (p.objs r) (p.objs s))) [
    | inl e ↦ rw (e, insert_by_load) (h, hs)
    | inr e ↦ rw (e, insert_by_load) (hs.0, insert-All Q r rs h hs.1)
  ]

  All-insert :
      (Q : ℕ → Type 0) (r : ℕ) (rs : List ℕ) → All Q (insert_by_load p r rs) → Q r × All Q rs
  unfolding insert_by_load
  All-insert Q r [] h = h
  All-insert Q r (s ∷ rs) h = elim (Bool-cases (load_le (p.objs r) (p.objs s))) [
    | inl e ↦ rw (e, insert_by_load) at h
    | inr e ↦
        let h' : All Q (s ∷ insert_by_load p r rs) = rw (e, insert_by_load) at h in
        let rest = All-insert Q r rs h'.1 in (rest.0, (h'.0, rest.1))
  ]

  insert-ne-nil : (r : ℕ) (rs : List ℕ) → insert_by_load p r rs ≢ []
  unfolding insert_by_load
  insert-ne-nil r [] h = cc
  insert-ne-nil r (s ∷ rs) h = ground arith

  insert-IsSorted : (r : ℕ) (rs : List ℕ) → IsSorted rs → IsSorted (insert_by_load p r rs)
  unfolding insert_by_load
  insert-IsSorted r [] h = (tt, tt)
  insert-IsSorted r (s ∷ rs) h = elim (Bool-cases (load_le (p.objs r) (p.objs s))) [
    | inl e ↦
        rw (e, insert_by_load)
          ((e, All-imp (λ t k. load_le_trans (p.objs r) (p.objs s) (p.objs t) e k) rs h.0), h)
    | inr e ↦
        rw (e, insert_by_load)
          (
            insert-All (λ t. load_le (p.objs s) (p.objs t) ≡ true) r rs
                (load_le_total (p.objs r) (p.objs s) e) h.0,
            insert-IsSorted r rs h.1,
          )
  ]

  sort-IsSorted : (rs : List ℕ) → IsSorted (sort_by_load p rs)
  unfolding sort_by_load
  sort-IsSorted [] = tt
  sort-IsSorted (r ∷ rs) = insert-IsSorted r (sort_by_load p rs) (sort-IsSorted rs)

  pub sort-All : (Q : ℕ → Type 0) (rs : List ℕ) → All Q rs → All Q (sort_by_load p rs)
  unfolding sort_by_load
  sort-All Q [] h = tt
  sort-All Q (r ∷ rs) h = insert-All Q r (sort_by_load p rs) h.0 (sort-All Q rs h.1)

  All-sort : (Q : ℕ → Type 0) (rs : List ℕ) → All Q (sort_by_load p rs) → All Q rs
  unfolding sort_by_load
  All-sort Q [] h = tt
  All-sort Q (r ∷ rs) h = let k = All-insert Q r (sort_by_load p rs) h in (k.0, All-sort Q rs k.1)

  -- The first of the sorted candidates goes before all of them.
  pub sort-IsLeast :
      (rs : List ℕ) (r : ℕ) (rest : List ℕ) → sort_by_load p rs ≡ r ∷ rest → IsLeast r rs
  sort-IsLeast rs r rest e =
      All-sort (λ s. load_le (p.objs r) (p.objs s) ≡ true) rs
        (rw e (load_le_refl (p.objs r), (subst IsSorted e (sort-IsSorted rs)).0))

  pub sort-nil : (rs : List ℕ) → sort_by_load p rs ≡ [] → rs ≡ []
  unfolding sort_by_load insert_by_load
  sort-nil [] h = refl
  sort-nil (r ∷ rs) h = absurd (insert-ne-nil r (sort_by_load p rs) h)
