-- ===== src/Accounts/Pool/Slots.antt =====
-- Slots: `in_flight` against `max_concurrent`, over sequences of calls.
use devin_proxy.Prelude.{
  ℕ, ◌≤◌, Text, true, false, ◌≡◌, sym, ap, subst, All, ◌⊎◌, inl, inr, none, some, List, [], ◌∷◌,
  nat_eq, arith, Option-cases,
}
use devin_proxy.Accounts.Account.{Account, at_cap}
use devin_proxy.Accounts.Failure.{Failure}
use devin_proxy.Accounts.Pool.State.{Pool}
use devin_proxy.Accounts.Pool.Schedule.{
  Request, is_available, take_slot, pick, pick_by, pick_forced, release, mark_ok, mark_fail,
  failed_account, pin, unpin, flush_pins,
}
use devin_proxy.Accounts.Pool.Choice.{pick-Picked, pick_none_lem}

release-take_slot :
    (p p' : Pool) (r : ℕ)
    → ((s : ℕ) → p'.objs s ≡ (take_slot p r).objs s)
    → (s : ℕ) → (release p' r).objs s ≡ p.objs s
unfolding release take_slot
release-take_slot p p' r h s = ground (arith, h r, h s)

pick_forced-slot :
    (id : ℕ) (p : Pool) (r : ℕ)
    → (pick_forced id p).1 ≡ some r
    → (s : ℕ) → (pick_forced id p).0.objs s ≡ (take_slot p r).objs s
unfolding pick_forced
pick_forced-slot id p r h s = ground arith

-- Whatever way an account is chosen, its slot alone is taken.
pub slot-pick :
    (now : ℕ) (p : Pool) (q : Request) (r : ℕ)
    → (pick now p q).1 ≡ some r
    → (s : ℕ) → (pick now p q).0.objs s ≡ (take_slot p r).objs s
slot-pick now p q r h s = elim (Option-cases q.force_id) [
  | inl f ↦ (pick-Picked now p q r f h).slot s
  | inr (id, f) ↦
      let e : pick now p q ≡ pick_forced id p = unfold pick pick_by in ap (pick_by now p q) f in
      rw e (pick_forced-slot id p r (rw e at h) s)
]

-- A `pick`, forced or not, takes one slot of the account that it returns and nothing else of the
-- accounts, and `release` of that account gives the slot back: every object is as before.
pub release-pick :
    (now : ℕ) (p : Pool) (q : Request) (r : ℕ)
    → (pick now p q).1 ≡ some r
    → (s : ℕ) → (release (pick now p q).0 r).objs s ≡ p.objs s
release-pick now p q r h s = release-take_slot p (pick now p q).0 r (slot-pick now p q r h) s

-- No account has more requests in flight than its cap, where it has one.
abbrev pub IsWithinCaps : Pool → Type 0
IsWithinCaps p =
    (s : ℕ) → ((p.objs s).max_concurrent ≡ 0) ⊎ ((p.objs s).in_flight ≤ (p.objs s).max_concurrent)

-- The calls that the request path makes. A reference stands for an object that was picked before.
pub data Call : Type 0 where
  picks : Request → Call
  releases : ℕ → Call
  succeeds : ℕ → Call
  fails : ℕ → Failure → Call
  pins : Text → ℕ → Call
  unpins : Text → Call
  flushes : Call

pub objs-pin : (now : ℕ) (p : Pool) (key : Text) (r : ℕ) → (pin now p key r).objs ≡ p.objs
unfolding pin
objs-pin now p key r = ground arith

-- A `pick` that finds no account changes nothing.
pub pick-none : (now : ℕ) (p : Pool) (q : Request) → (pick now p q).1 ≡ none → (pick now p q).0 ≡ p
pick-none now p q h = elim (Option-cases q.force_id) [
  | inl f ↦ let l = pick_none_lem now p q f in ap (λ t. t.0) (l.1 (l.0 h))
  | inr (id, f) ↦
      let e : pick now p q ≡ pick_forced id p = unfold pick pick_by in ap (pick_by now p q) f in
      rw e (unfold pick_forced in ground (arith, rw e at h))
]

module _ (lower : Text → Text) where
  unfoldable pub step : Pool → ℕ × Call → Pool
  step p (now, picks q) = (pick now p q).0
  step p (now, releases r) = release p r
  step p (now, succeeds r) = mark_ok now p r
  step p (now, fails r err) = mark_fail lower now p r err
  step p (now, pins key r) = pin now p key r
  step p (now, unpins key) = unpin p key
  step p (now, flushes) = flush_pins now p

  unfoldable pub run : Pool → List (ℕ × Call) → Pool
  unfolding step
  run p [] = p
  run p (c ∷ cs) = run (step p c) cs

  abbrev pub IsUnforced : ℕ × Call → Type 0
  IsUnforced (now, picks q) = q.force_id ≡ none
  IsUnforced _ = Unit

  at_cap-available : (q : Request) (a : Account) → is_available q a ≡ true → at_cap a ≡ false
  unfolding is_available
  at_cap-available q a h = ground arith

  take_slot-within :
      (p : Pool) (r s : ℕ)
      → at_cap (p.objs r) ≡ false
      → IsWithinCaps p
      → (((take_slot p r).objs s).max_concurrent ≡ 0)
        ⊎ (((take_slot p r).objs s).in_flight ≤ ((take_slot p r).objs s).max_concurrent)
  unfolding take_slot at_cap
  take_slot-within p r s c h = ground (arith, h s, h r)

  pick-IsWithinCaps :
      (now : ℕ) (p : Pool) (q : Request)
      → q.force_id ≡ none
      → IsWithinCaps p
      → IsWithinCaps (pick now p q).0
  pick-IsWithinCaps now p q f h s = elim (Option-cases (pick now p q).1) [
    | inl e ↦ subst IsWithinCaps (sym (pick-none now p q e)) h s
    | inr (r, e) ↦ rw (slot-pick now p q r e s) (
        take_slot-within p r s
          (at_cap-available q (p.objs r) (pick-Picked now p q r f e).eligible.available) h)
  ]

  step-IsWithinCaps :
      (c : ℕ × Call) (p : Pool) → IsUnforced c → IsWithinCaps p → IsWithinCaps (step p c)
  unfolding step
  step-IsWithinCaps (now, picks q) p f h s = pick-IsWithinCaps now p q f h s
  step-IsWithinCaps (now, releases r) p f h s = unfold release in ground (arith, h s, h r)
  step-IsWithinCaps (now, succeeds r) p f h s = unfold mark_ok in ground (arith, h s, h r)
  step-IsWithinCaps (now, fails r err) p f h s =
      unfold mark_fail failed_account in ground (arith, h s, h r)
  step-IsWithinCaps (now, pins key r) p f h s = rw (objs-pin now p key r) (h s)
  step-IsWithinCaps (now, unpins key) p f h s = unfold unpin in h s
  step-IsWithinCaps (now, flushes) p f h s = unfold flush_pins in h s

  -- From a pool within its caps, whatever sequence of unforced picks, releases, outcomes and pin
  -- changes is made, at whatever times, no account ever exceeds its cap.
  pub run-IsWithinCaps :
      (cs : List (ℕ × Call)) (p : Pool)
      → All IsUnforced cs
      → IsWithinCaps p
      → IsWithinCaps (run p cs)
  unfolding run
  run-IsWithinCaps [] p f h = h
  run-IsWithinCaps (c ∷ cs) p f h = run-IsWithinCaps cs (step p c) f.1 (step-IsWithinCaps c p f.0 h)
