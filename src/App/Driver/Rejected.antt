-- ===== src/App/Driver/Rejected.antt =====
-- The slots over a turn of `_iter_chat` whose stream is rejected for its tool descriptions.
use devin_proxy.Prelude.{ℕ, suc, true, false, ◌≡◌, refl, ap, sym, subst, arith, some, ◌++◌}
use devin_proxy.Accounts.Account.{Account}
use devin_proxy.Accounts.Pool.State.{Pool}
use devin_proxy.Accounts.Pool.Schedule.{Request, pick, release}
use devin_proxy.Accounts.Pool.Slots.{release-pick}
use devin_proxy.App.Driver.Attempt.{
  Ending, clean, terminal, broken, Pass, consume, wants_sanitizing, run_passes, is_broken,
  is_rejection, release_unless_broken, sent_live, Stream,
}
use devin_proxy.App.Driver.Loop.{
  Env, Driver, built, track, passes_of, note_tried, next_attempt, try_account, on_pick, turn,
  request,
}
use devin_proxy.App.Driver.Ends.{SameFlight, KeepsFlight, flight-release, conclude-KeepsFlight}

rejection-broken : (e : Ending) → is_rejection e ≡ true → is_broken e ≡ false
rejection-broken (terminal e) h = refl
rejection-broken clean h = cc
rejection-broken (broken e) h = cc

wants-rejection :
    (k : ℕ) (one : Pass) → wants_sanitizing k one ≡ true → is_rejection one.ending ≡ true
unfolding wants_sanitizing
wants-rejection k one h = ground arith

module _ (env : Env) where
  -- The pass over a stream.
  abbrev pub pass_over : Stream → Pass
  pass_over st = consume (track env) env.live false st.events st.raises

  try_account-rejected :
      (p : Pool) (d : Driver) (r k : ℕ)
      → wants_sanitizing k (pass_over (env.stream d.attempt (d.pool.objs r))) ≡ true
      → SameFlight (release (release d.pool r) r) p
      → KeepsFlight p (try_account env d r (built k))
  unfolding try_account
  try_account-rejected p d r k w h = rw both (
      conclude-KeepsFlight env p
        (record d { pool = release_unless_broken (release d.pool r) r two.ending }) r _ two
        two.ending refl (λ e. rw e h) (λ e. rw e h))
    where
      one : Pass
      one = pass_over (env.stream d.attempt (d.pool.objs r))

      two : Pass
      two = pass_over (env.sanitized d.attempt (d.pool.objs r))

      both : passes_of env d r k ≡ record {
        last = two;
        sent = sent_live env.live r one ++ sent_live env.live r two;
        pool = release_unless_broken (release d.pool r) r two.ending;
      }
      both =
          unfold run_passes in
          rw (w, run_passes, rejection-broken one.ending (wants-rejection k one w)) refl

  -- A turn of the driver that picks an account, builds the request and whose first stream is rejected
  -- for its tool descriptions gives the one slot that it has taken back twice, however it ends: the
  -- second pass may be answered, fail or be broken off. Behind it the account is left with one request
  -- in flight less than before the turn (if there was any), and the other accounts with the same.
  pub turn-rejected :
      (d : Driver) (r k : ℕ)
      → (pick (env.pick_time (suc d.attempt)) d.pool (request env d (suc d.attempt))).1 ≡ some r
      → env.build
          (suc d.attempt)
          ((pick (env.pick_time (suc d.attempt)) d.pool (request env d (suc d.attempt))).0.objs r)
        ≡ built k
      → wants_sanitizing k (
          pass_over (
            env.stream (suc d.attempt) (
              (pick (env.pick_time (suc d.attempt)) d.pool (request env d (suc d.attempt))).0.objs
                r)))
        ≡ true
      → KeepsFlight (release d.pool r) (turn env d)
  unfolding turn on_pick
  turn-rejected d r k e b w =
      subst (λ x. KeepsFlight (release d.pool r) (on_pick env (next_attempt env d) (p, x))) (sym e)
        (subst
          (λ y.
            KeepsFlight (release d.pool r)
              (try_account env (note_tried env (next_attempt env d) p r) r y))
          (sym b)
          (try_account-rejected (release d.pool r) (note_tried env (next_attempt env d) p r) r k w (
            flight-release (release p r) d.pool r
              (λ s. ap (λ (a : Account). a.in_flight) (release-pick now d.pool q r e s)))))
    where
      now : ℕ
      now = env.pick_time (suc d.attempt)

      q : Request
      q = request env d (suc d.attempt)

      p : Pool
      p = (pick now d.pool q).0
