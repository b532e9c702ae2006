-- ===== src/Accounts/Pool/Choice.antt =====
-- Which account `pick` chooses.
use devin_proxy.Prelude.{
  ℕ, Text, Bool, true, false, ◌≡◌, refl, ap, subst, ◌⊎◌, inl, inr, none, some, List, [], ◌∷◌, map,
  elem, keep, All, keep-All, All-imp, nat_eq, text_eq, nat_beq, arith, Bool-cases, Option-cases,
}
use devin_proxy.Accounts.Account.{Account}
use devin_proxy.Accounts.Pool.State.{Pool}
use devin_proxy.Accounts.Pool.Schedule.{
  Request, is_available, avail, is_ready, sort_by_load, take_slot, pinned, ready_or_all, candidates,
  first_of_sorted, touch_pin, pick_free, pick_by, pick,
}
use devin_proxy.Accounts.Pool.Order.{IsLeast, sort-All, sort-IsLeast, sort-nil}

module _ (now : ℕ) (p : Pool) (q : Request) where
  -- An account that may serve the request, and that is ready if one of these is.
  pub record IsEligible (r : ℕ) : Type 0 where
    pub available : is_available q (p.objs r) ≡ true
    pub ready :
        (is_ready now (p.objs r) ≡ true) ⊎ All (λ s. is_ready now (p.objs s) ≡ false) (avail p q)

-- A filter that keeps nothing.
keep-nil : (f : ℕ → Bool) (xs : List ℕ) → keep f xs ≡ [] → All (λ x. f x ≡ false) xs
keep-nil f [] h = tt
keep-nil f (x ∷ xs) h = elim (Bool-cases (f x)) [
  | inl e ↦ absurd (ground arith)
  | inr e ↦ (e, keep-nil f xs (ground arith))
]

keep-both :
    (f g : ℕ → Bool) (xs : List ℕ)
    → All (λ x. g x ≡ true) xs
    → All (λ x. (f x ≡ true) × (g x ≡ true)) (keep f xs)
keep-both f g [] h = tt
keep-both f g (x ∷ xs) h = elim (Bool-cases (f x)) [
  | inl e ↦ rw e ((e, h.0), keep-both f g xs h.1)
  | inr e ↦ rw e (keep-both f g xs h.1)
]

All-elem : (Q : ℕ → Type 0) (x : ℕ) (xs : List ℕ) → elem x xs ≡ true → All Q xs → Q x
All-elem Q x [] h k = absurd (ground arith)
All-elem Q x (y ∷ xs) h k = elim (Bool-cases (nat_beq y x)) [
  | inl e ↦ let y≡x : y ≡ x = ground arith in subst Q y≡x k.0
  | inr e ↦ All-elem Q x xs (ground arith) k.1
]

module _ (now : ℕ) (p : Pool) (q : Request) where
  avail-All : All (λ r. is_available q (p.objs r) ≡ true) (avail p q)
  unfolding avail
  avail-All = keep-All (λ r. is_available q (p.objs r)) (map (λ e. e.1) p.accs)

  ready_or_all-IsEligible :
      (rs : List ℕ)
      → keep (λ r. is_ready now (p.objs r)) (avail p q) ≡ rs
      → All (IsEligible now p q) (ready_or_all rs (avail p q))
  ready_or_all-IsEligible [] e =
      All-imp (λ r h. record { available = h; ready = inr (keep-nil _ (avail p q) e) }) (avail p q)
        avail-All
  ready_or_all-IsEligible (r ∷ rs) e =
      All-imp (λ s h. record { available = h.1; ready = inl h.0 }) (r ∷ rs)
        (subst (All _) e (keep-both _ (λ s. is_available q (p.objs s)) (avail p q) avail-All))

  candidates-IsEligible : All (IsEligible now p q) (candidates now p q)
  unfolding candidates
  candidates-IsEligible = ready_or_all-IsEligible _ refl

  pinned-elem :
      (r : ℕ)
      → pinned now p q ≡ some r
      → (elem r (avail p q) ≡ true) × (is_ready now (p.objs r) ≡ true)
  unfolding pinned
  pinned-elem r h = ground arith

  pinned-IsEligible : (r : ℕ) → pinned now p q ≡ some r → IsEligible now p q r
  pinned-IsEligible r h = record {
    available =
        All-elem (λ s. is_available q (p.objs s) ≡ true) r (avail p q) (pinned-elem r h).0
          avail-All;
    ready = inl (pinned-elem r h).1;
  }

  -- What a successful `pick` has done, the account that it chose being `r`.
  pub record Picked (p' : Pool) (r : ℕ) : Type 0 where
    pub eligible : IsEligible now p q r
    pub least : (pinned now p q ≡ some r) ⊎ IsLeast p r (candidates now p q)
    pub slot : (s : ℕ) → p'.objs s ≡ (take_slot p r).objs s
    pub same_db : p'.db ≡ p.db

  objs-touch_pin : (p₀ : Pool) (key : Text) → (touch_pin now p₀ key).objs ≡ p₀.objs
  unfolding touch_pin
  objs-touch_pin p₀ key = ground arith

  db-touch_pin : (p₀ : Pool) (key : Text) → (touch_pin now p₀ key).db ≡ p₀.db
  unfolding touch_pin
  db-touch_pin p₀ key = ground arith

  sorted-Picked :
      (rs : List ℕ) (r : ℕ)
      → sort_by_load p (candidates now p q) ≡ rs
      → (first_of_sorted p rs).1 ≡ some r
      → Picked (first_of_sorted p rs).0 r
  unfolding first_of_sorted take_slot
  sorted-Picked [] r e h = cc
  sorted-Picked (s ∷ rs) r e h =
      let s≡r : s ≡ r = ground arith in
      subst (Picked (take_slot p s)) s≡r (record {
        eligible =
            (subst (All (IsEligible now p q)) e
              (sort-All p (IsEligible now p q) (candidates now p q) candidates-IsEligible)).0;
        least = inr (sort-IsLeast p _ s rs e);
        slot = λ t. refl;
        same_db = refl;
      })

  touched-Picked :
      (s r : ℕ)
      → pinned now p q ≡ some s
      → s ≡ r
      → Picked (touch_pin now (take_slot p s) q.session_key) r
  unfolding take_slot
  touched-Picked s r h s≡r =
      subst (Picked (touch_pin now (take_slot p s) q.session_key)) s≡r (record {
        eligible = pinned-IsEligible s h;
        least = inl h;
        slot = λ t. ap (λ (o : ℕ → Account). o t) (objs-touch_pin (take_slot p s) q.session_key);
        same_db = db-touch_pin (take_slot p s) q.session_key;
      })

  pick_free-Picked : (r : ℕ) → (pick_free now p q).1 ≡ some r → Picked (pick_free now p q).0 r
  unfolding pick_free
  pick_free-Picked r h = elim (Option-cases (pinned now p q)) [
    | inl e ↦ rw (e, pick_free) (sorted-Picked _ r refl (rw (e, pick_free) at h))
    | inr (s, e) ↦
        let hit : some s ≡ some r = rw (e, pick_free) at h in
        rw (e, pick_free) (touched-Picked s r e (ground arith))
  ]

  pub pick-unforced : q.force_id ≡ none → pick now p q ≡ pick_free now p q
  unfolding pick
  pick-unforced f = ap (pick_by now p q) f

  -- An unforced `pick` that succeeds has chosen an account that is enabled, not excluded, below its
  -- cap, and that serves the model; the account is out of cooldown if any such account is; unless
  -- the session is pinned to it, no candidate comes before it in the order by load; the slot of this
  -- account alone is taken, and the database is not written.
  pub pick-Picked :
      (r : ℕ) → q.force_id ≡ none → (pick now p q).1 ≡ some r → Picked (pick now p q).0 r
  pick-Picked r f h = rw (pick-unforced f) (pick_free-Picked r (rw (pick-unforced f) at h))

  pinned-nil : avail p q ≡ [] → pinned now p q ≡ none
  pinned-nil e = elim (Option-cases (pinned now p q)) [
    | inl h ↦ h
    | inr (r, h) ↦ absurd (ground (arith, (rw e at (pinned-elem r h)).0))
  ]

  candidates-nil : avail p q ≡ [] → candidates now p q ≡ []
  unfolding candidates
  candidates-nil e = rw e

  nil-candidates : (rs : List ℕ) → ready_or_all rs (avail p q) ≡ [] → avail p q ≡ []
  nil-candidates [] h = h
  nil-candidates (r ∷ rs) h = cc

  unpicked :
      (rs : List ℕ)
      → sort_by_load p (candidates now p q) ≡ rs
      → (first_of_sorted p rs).1 ≡ none
      → avail p q ≡ []
  unfolding first_of_sorted candidates
  unpicked [] e h = nil-candidates _ (sort-nil p _ e)
  unpicked (r ∷ rs) e h = cc

  pick_free-none : (pick_free now p q).1 ≡ none → avail p q ≡ []
  unfolding pick_free
  pick_free-none h = elim (Option-cases (pinned now p q)) [
    | inl e ↦ unpicked _ refl (rw (e, pick_free) at h)
    | inr (s, e) ↦ cc (rw (e, pick_free) at h)
  ]

  pick_free-nil : avail p q ≡ [] → pick_free now p q ≡ (p, none)
  unfolding pick_free first_of_sorted sort_by_load
  pick_free-nil e = rw (pinned-nil e, pick_free) (rw (candidates-nil e) refl)

  -- Without a forced account `pick` returns none only if no account is available, and then it
  -- changes nothing.
  pub pick_none_lem :
      q.force_id ≡ none
      → ((pick now p q).1 ≡ none → avail p q ≡ []) × (avail p q ≡ [] → pick now p q ≡ (p, none))
  pick_none_lem f = rw (pick-unforced f) (pick_free-none, pick_free-nil)
