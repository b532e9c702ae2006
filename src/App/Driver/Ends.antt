-- ===== src/App/Driver/Ends.antt =====
-- The slots of the accounts over a run of the driver.
use devin_proxy.Prelude.{
  ℕ, zero, suc, Text, true, false, ◌≡◌, refl, ap, ◌∙◌, Option, none, some, List, arith, Bool-cases,
  inl, inr, if◌then◌else◌, ltb,
}
use devin_proxy.Data.{ErrDict}
use devin_proxy.Accounts.Account.{Account}
use devin_proxy.Accounts.Failure.{Failure, dict}
use devin_proxy.Accounts.Pool.State.{Pool}
use devin_proxy.Accounts.Pool.Schedule.{
  Request, pick, release, mark_ok, mark_fail, failed_account, pin,
}
use devin_proxy.Accounts.Pool.Slots.{release-pick, pick-none, objs-pin}
use devin_proxy.App.Driver.Attempt.{
  Ending, clean, terminal, broken, Pass, Yield, consume, wants_sanitizing, run_passes, is_broken,
  release_unless_broken, sent_live,
}
use devin_proxy.App.Driver.Loop.{
  Env, Driver, track, Build, built, unbuilt, Outcome, Turn, go, leave, stop, fail_over,
  wait_and_retry, retry_or_fail, give_up, start_clock, exhausted, timed_out, passes_of, conclude,
  note_tried, next_attempt, try_account, on_pick, turn, request, after_turn, drive, fuel, start,
  iter_chat,
}
use devin_proxy.App.Driver.Turns.{retry_cases}

-- The requests in flight on the account whose object is `s`.
abbrev pub flight : Pool → ℕ → ℕ
flight p s = (p.objs s).in_flight

-- Two pools with the same requests in flight.
abbrev pub SameFlight : Pool → Pool → Type 0
SameFlight p q = (s : ℕ) → flight p s ≡ flight q s

flight-mark_fail :
    (lower : Text → Text) (now : ℕ) (p : Pool) (r : ℕ) (e : Failure)
    → SameFlight (mark_fail lower now p r e) p
unfolding mark_fail failed_account
flight-mark_fail lower now p r e s = ground arith

flight-mark_ok : (now : ℕ) (p : Pool) (r : ℕ) → SameFlight (mark_ok now p r) p
unfolding mark_ok
flight-mark_ok now p r s = ground arith

flight-pin : (now : ℕ) (p : Pool) (key : Text) (r : ℕ) → SameFlight (pin now p key r) p
flight-pin now p key r s = ap (λ (o : ℕ → Account). (o s).in_flight) (objs-pin now p key r)

-- `release` sees the counts alone.
pub flight-release : (p q : Pool) (r : ℕ) → SameFlight p q → SameFlight (release p r) (release q r)
unfolding release
flight-release p q r h s = ground (arith, h r, h s)

-- On every turn that ends: the counts are those of `p`.
abbrev pub KeepsFlight : Pool → Turn → Type 0
KeepsFlight p (go ys d) = SameFlight d.pool p
KeepsFlight p (leave d) = SameFlight d.pool p
KeepsFlight p (stop ys q o) = SameFlight q p

module _ (env : Env) (p : Pool) where
  fail_over-KeepsFlight :
      (ys : List Yield) (d : Driver) (r : ℕ) (e : ErrDict)
      → SameFlight d.pool p
      → KeepsFlight p (fail_over env ys d r e)
  unfolding fail_over
  fail_over-KeepsFlight ys d r e h s =
      flight-mark_fail env.lower (env.mark_time d.attempt) d.pool r (dict e) s ∙ h s

  wait_and_retry-KeepsFlight :
      (ys : List Yield) (d : Driver) (r : ℕ) (e : ErrDict)
      → SameFlight d.pool p
      → KeepsFlight p (wait_and_retry env ys d r e)
  unfolding wait_and_retry
  wait_and_retry-KeepsFlight ys d r e h = elim (Bool-cases (env.cancelled d.attempt)) [
    | inl c ↦ rw c kept
    | inr c ↦ rw c kept
  ]
    where
      kept : SameFlight (mark_fail env.lower (env.mark_time d.attempt) d.pool r (dict e)) p
      kept s = flight-mark_fail env.lower (env.mark_time d.attempt) d.pool r (dict e) s ∙ h s

  retry_or_fail-KeepsFlight :
      (ys : List Yield) (d : Driver) (r : ℕ) (e : ErrDict) (wait : Option ℕ)
      → SameFlight d.pool p
      → KeepsFlight p (retry_or_fail env ys d r e wait)
  retry_or_fail-KeepsFlight ys d r e wait h =
      let d' = start_clock env d in
      retry_cases env (KeepsFlight p) d r e wait ys (fail_over-KeepsFlight ys d r e h)
        (fail_over-KeepsFlight ys (give_up env d' exhausted) r exhausted h)
        (fail_over-KeepsFlight ys (give_up env d' timed_out) r timed_out h)
        (λ _. wait_and_retry-KeepsFlight ys d' r e h)

  -- The pool behind the last pass: the slot is released, unless the pass returns, which releases it.
  pub conclude-KeepsFlight :
      (d : Driver) (r : ℕ) (ys : List Yield) (pass : Pass) (ending : Ending)
      → pass.ending ≡ ending
      → (is_broken ending ≡ false → SameFlight d.pool p)
      → (is_broken ending ≡ true → SameFlight (release d.pool r) p)
      → KeepsFlight p (conclude env d r ys pass)
  unfolding conclude
  conclude-KeepsFlight d r ys pass (terminal e) h free held =
      rw (h, conclude)
        (retry_or_fail-KeepsFlight ys (record d { last_err = e }) r e
          (if pass.got_content then none else e.retry_after) (free refl))
  conclude-KeepsFlight d r ys pass (broken e) h free held =
      rw (h, conclude)
        λ s.
          flight-release (mark_fail env.lower (env.mark_time d.attempt) d.pool r (dict e)) d.pool r
            (flight-mark_fail env.lower (env.mark_time d.attempt) d.pool r (dict e)) s
          ∙ held refl s
  conclude-KeepsFlight d r ys pass clean h free held =
      rw (h, conclude)
        λ s.
          flight-pin (env.mark_time d.attempt) (mark_ok (env.mark_time d.attempt) d.pool r)
            env.session_key r s
          ∙ flight-mark_ok (env.mark_time d.attempt) d.pool r s
          ∙ free refl s

  try_account-KeepsFlight :
      (d : Driver) (r : ℕ) (b : Build)
      → ((k : ℕ)
          → b ≡ built k
          → wants_sanitizing k (
              consume
                (track env)
                env.live
                false
                (env.stream d.attempt (d.pool.objs r)).events
                (env.stream d.attempt (d.pool.objs r)).raises)
            ≡ false)
      → SameFlight (release d.pool r) p
      → KeepsFlight p (try_account env d r b)
  unfolding try_account
  try_account-KeepsFlight d r (unbuilt m st) plain h =
      λ s. flight-mark_fail env.lower (env.mark_time d.attempt) (release d.pool r) r _ s ∙ h s
  try_account-KeepsFlight d r (built k) plain h = rw one (
      conclude-KeepsFlight (record d { pool = release_unless_broken d.pool r pass.ending }) r
        (sent_live env.live r pass) pass pass.ending refl (λ e. rw e h) (λ e. rw e h))
    where
      pass : Pass
      pass =
          consume (track env) env.live false (env.stream d.attempt (d.pool.objs r)).events
            (env.stream d.attempt (d.pool.objs r)).raises

      one : passes_of env d r k ≡ record {
        last = pass;
        sent = sent_live env.live r pass;
        pool = release_unless_broken d.pool r pass.ending;
      }
      one = unfold run_passes in rw (plain k refl, run_passes)

-- No attempt is answered by a rejection of its tool descriptions.
abbrev pub IsPlain : Env → Type 0
IsPlain env =
    (n : ℕ) (a : Account) (k : ℕ)
    → env.build n a ≡ built k
    → wants_sanitizing k
        (consume (track env) env.live false (env.stream n a).events (env.stream n a).raises)
      ≡ false

module _ (env : Env) (plain : IsPlain env) where
  turn-KeepsFlight : (d : Driver) → KeepsFlight d.pool (turn env d)
  unfolding turn
  turn-KeepsFlight d = by_pick (pick now d.pool q).1 refl
    where
      now : ℕ
      now = env.pick_time (suc d.attempt)

      q : Request
      q = request env d (suc d.attempt)

      by_pick :
          (x : Option ℕ)
          → (pick now d.pool q).1 ≡ x
          → KeepsFlight d.pool (on_pick env (next_attempt env d) ((pick now d.pool q).0, x))
      by_pick none e = λ s. ap (λ (p : Pool). flight p s) (pick-none now d.pool q e)
      by_pick (some r) e =
          try_account-KeepsFlight env d.pool
            (note_tried env (next_attempt env d) (pick now d.pool q).0 r) r
            (env.build (suc d.attempt) ((pick now d.pool q).0.objs r))
            (λ k b. plain (suc d.attempt) ((pick now d.pool q).0.objs r) k b)
            (λ s. ap (λ (a : Account). a.in_flight) (release-pick now d.pool q r e s))

  after_turn-KeepsFlight :
      (p : Pool) (rest : Driver → List Yield × Pool × Outcome) (t : Turn)
      → ((d : Driver) → SameFlight (rest d).1 d.pool)
      → KeepsFlight p t
      → SameFlight (after_turn env rest t).1 p
  after_turn-KeepsFlight p rest (go ys d) h t s = h d s ∙ t s
  after_turn-KeepsFlight p rest (leave d) h t s = t s
  after_turn-KeepsFlight p rest (stop ys q o) h t s = t s

  drive-SameFlight : (f : ℕ) (d : Driver) → SameFlight (drive env f d).1 d.pool
  unfolding drive
  drive-SameFlight zero d = λ s. refl
  drive-SameFlight (suc f) d = elim (Bool-cases (ltb d.attempt d.attempts)) [
    | inl e ↦
        rw (e, drive)
          (after_turn-KeepsFlight d.pool (drive env f) (turn env d) (drive-SameFlight f)
            (turn-KeepsFlight d))
    | inr e ↦ rw (e, drive) (λ s. refl)
  ]

  -- Unless an attempt is rejected for its tool descriptions, a run of the driver, however it ends,
  -- leaves every account with the requests in flight that it had before: each slot that was taken is
  -- given back once.
  pub iter_chat-SameFlight : (p : Pool) → SameFlight (iter_chat env p).1 p
  unfolding iter_chat
  iter_chat-SameFlight p = drive-SameFlight (fuel env) (start env p)
