-- ===== src/App/Driver/Turns.antt =====
-- One turn of the driver's loop: what it sends, and how much is left of the loop behind it.
use devin_proxy.Prelude.{
  ℕ, suc, ◌+◌, ◌-◌, ◌≤◌, ◌<◌, Bool, true, false, ◌≡◌, ◌≢◌, refl, ap, ◌∙◌, Option, none, some, List,
  [], ◌∷◌, ◌++◌, arith, Bool-cases, inl, inr, if◌then◌else◌, leb,
}
use devin_proxy.Data.{ErrDict, ChatResponse, failed}
use devin_proxy.Accounts.Pool.State.{Pool}
use devin_proxy.Accounts.Pool.Schedule.{pick}
use devin_proxy.App.Driver.Attempt.{
  Ending, clean, terminal, broken, Pass, Yield, from, from_none, yields_of, sent_live, is_broken,
}
use devin_proxy.App.Driver.Loop.{
  track, Env, Driver, Build, built, unbuilt, out_of_fuel, Turn, go, leave, stop, fail_over,
  wait_and_retry, retry_or_fail, give_up, start_clock, over_budget, exhausted, timed_out, passes_of,
  conclude, note_tried, next_attempt, try_account, on_pick, turn, request,
}
use devin_proxy.App.Driver.Passes.{run_passes-IsTried, is_terminal}

-- What may reach the client: the messages of one account; or, on a live stream, some messages of one
-- account and then the error that broke it off; or a single error.
pub data IsReply (live : Bool) (ys : List Yield) : Type 0 where
  complete : (r : ℕ) (ms : List ChatResponse) → ys ≡ yields_of r ms → IsReply live ys
  broken_off :
      (r : ℕ) (ms : List ChatResponse) (e : ErrDict)
      → live ≡ true
      → ms ≢ []
      → ys ≡ yields_of r ms ++ from r (failed e) ∷ []
      → IsReply live ys
  refused : (e : ErrDict) → ys ≡ from_none (failed e) ∷ [] → IsReply live ys

-- The turns that are left: attempts not made, and waits not used.
abbrev pub measure : Driver → ℕ
measure d = (d.attempts - d.attempt) + (2 - d.retry_after_retries)

-- A turn that goes on has sent nothing and leaves at most `n`; a turn that stops has sent a reply.
abbrev pub IsTurn : Bool → ℕ → Turn → Type 0
IsTurn live n (go ys d) = (ys ≡ []) × (measure d ≤ n)
IsTurn live n (leave d) = Unit
IsTurn live n (stop ys p o) = IsReply live ys × (o ≢ out_of_fuel)

IsTurn-if :
    (live : Bool) (n : ℕ) (b : Bool) (t u : Turn)
    → (b ≡ true → IsTurn live n t)
    → (b ≡ false → IsTurn live n u)
    → IsTurn live n (if b then t else u)
IsTurn-if live n true t u ht hu = ht refl
IsTurn-if live n false t u ht hu = hu refl

IsTurn-le : (live : Bool) (n m : ℕ) (t : Turn) → n ≤ m → IsTurn live n t → IsTurn live m t
IsTurn-le live n m (go ys d) h t = (t.0, omega arith)
IsTurn-le live n m (leave d) h t = tt
IsTurn-le live n m (stop ys p o) h t = t

module _ (env : Env) where
  fail_over-IsTurn :
      (n : ℕ) (ys : List Yield) (d : Driver) (r : ℕ) (e : ErrDict)
      → ys ≡ []
      → measure d ≤ n
      → IsTurn env.live n (fail_over env ys d r e)
  unfolding fail_over
  fail_over-IsTurn n ys d r e h m = (h, m)

  wait_and_retry-IsTurn :
      (n : ℕ) (ys : List Yield) (d : Driver) (r : ℕ) (e : ErrDict)
      → ys ≡ []
      → measure d ≤ n
      → leb 2 d.retry_after_retries ≡ false
      → IsTurn env.live n (wait_and_retry env ys d r e)
  unfolding wait_and_retry
  wait_and_retry-IsTurn n ys d r e h m b =
      IsTurn-if env.live n (env.cancelled d.attempt) _ _ (λ _. (complete r [] h, λ x. cc))
        (λ _. (h, ground arith))

  -- The four ways out of a terminal error.
  pub retry_cases :
      (P : Turn → Type 0) (d : Driver) (r : ℕ) (e : ErrDict) (wait : Option ℕ) (ys : List Yield)
      → P (fail_over env ys d r e)
      → P (fail_over env ys (give_up env (start_clock env d) exhausted) r exhausted)
      → P (fail_over env ys (give_up env (start_clock env d) timed_out) r timed_out)
      → (leb 2 d.retry_after_retries ≡ false → P (wait_and_retry env ys (start_clock env d) r e))
      → P (retry_or_fail env ys d r e wait)
  unfolding retry_or_fail
  retry_cases P d r e none ys a b c w = a
  retry_cases P d r e (some after) ys a b c w = elim (Bool-cases (leb 2 d.retry_after_retries)) [
    | inl h ↦ rw h b
    | inr h ↦ rw h (either (over_budget env d after) c (w h))
  ]
    where
      either :
          (t : Bool)
          → P (fail_over env ys (give_up env (start_clock env d) timed_out) r timed_out)
          → P (wait_and_retry env ys (start_clock env d) r e)
          → P (
              if t
              then fail_over env ys (give_up env (start_clock env d) timed_out) r timed_out
              else wait_and_retry env ys (start_clock env d) r e)
      either true x y = x
      either false x y = y

  retry_or_fail-IsTurn :
      (d : Driver) (r : ℕ) (e : ErrDict) (wait : Option ℕ) (ys : List Yield)
      → ys ≡ []
      → IsTurn env.live (measure d) (retry_or_fail env ys d r e wait)
  retry_or_fail-IsTurn d r e wait ys h =
      let d₁ = give_up env (start_clock env d) exhausted in
      let d₂ = give_up env (start_clock env d) timed_out in
      retry_cases (IsTurn env.live (measure d)) d r e wait ys
        (fail_over-IsTurn (measure d) ys d r e h (omega arith))
        (fail_over-IsTurn (measure d) ys d₁ r exhausted h (omega arith))
        (fail_over-IsTurn (measure d) ys d₂ r timed_out h (omega arith))
        (wait_and_retry-IsTurn (measure d) ys (start_clock env d) r e h (omega arith))

  conclude_by :
      (d : Driver) (r : ℕ) (ys : List Yield) (pass : Pass) (ending : Ending)
      → pass.ending ≡ ending
      → ys ≡ sent_live env.live r pass
      → (is_terminal ending ≡ true → ys ≡ [])
      → (is_broken ending ≡ true → (env.live ≡ true) × (pass.msgs ≢ []))
      → IsTurn env.live (measure d) (conclude env d r ys pass)
  unfolding conclude
  conclude_by d r ys pass (terminal e) h sent quiet cut =
      rw (h, conclude)
        (retry_or_fail-IsTurn (record d { last_err = e }) r e
          (if pass.got_content then none else e.retry_after) ys (quiet refl))
  conclude_by d r ys pass (broken e) h sent quiet cut =
      rw (h, conclude)
        (
          broken_off r pass.msgs e (cut refl).0 (cut refl).1
              (ap (λ l. l ++ from r (failed e) ∷ []) (sent ∙ live_sent (cut refl).0)),
          λ x. cc,
        )
    where
      live_sent : env.live ≡ true → sent_live env.live r pass ≡ yields_of r pass.msgs
      live_sent l = rw l
  conclude_by d r ys pass clean h sent quiet cut =
      rw (h, conclude) (complete r pass.msgs (whole env.live sent), λ x. cc)
    where
      whole :
          (live : Bool)
          → ys ≡ sent_live live r pass
          → (if live then ys else ys ++ yields_of r pass.msgs) ≡ yields_of r pass.msgs
      whole true s = s
      whole false s = ap (λ l. l ++ yields_of r pass.msgs) s

  try_account-IsTurn :
      (d : Driver) (r : ℕ) (b : Build) → IsTurn env.live (measure d) (try_account env d r b)
  unfolding try_account
  try_account-IsTurn d r (unbuilt m s) = (refl, omega arith)
  try_account-IsTurn d r (built n) =
      let t = passes_of env d r n in
      let h =
        run_passes-IsTried (track env) env.live r n (env.stream d.attempt (d.pool.objs r))
          (env.sanitized d.attempt (d.pool.objs r)) d.pool in
      conclude_by (record d { pool = t.pool }) r t.sent t.last t.last.ending refl h.sent h.quiet
        h.cut

  on_pick-IsTurn :
      (d : Driver) (x : Pool × Option ℕ) → IsTurn env.live (measure d) (on_pick env d x)
  unfolding on_pick
  on_pick-IsTurn d (p, none) = tt
  on_pick-IsTurn d (p, some r) =
      try_account-IsTurn (note_tried env d p r) r (env.build d.attempt (p.objs r))

  -- A turn that is made uses up an attempt or a wait.
  pub turn-IsTurn :
      (d : Driver) (n : ℕ)
      → d.attempt < d.attempts
      → measure d ≤ suc n
      → IsTurn env.live n (turn env d)
  unfolding turn
  turn-IsTurn d n h m =
      IsTurn-le env.live (measure (next_attempt env d)) n (turn env d) (omega arith) (
        on_pick-IsTurn (next_attempt env d)
          (pick (env.pick_time (suc d.attempt)) d.pool (request env d (suc d.attempt))))
