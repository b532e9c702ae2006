-- ===== src/App/Driver/Loop.antt =====
-- The loop of `_iter_chat` over attempts. What the loop meets is a parameter: the accounts that
-- advertise the model, whether a request can be built, the streams, the clocks, and whether the
-- client goes away during a wait.
use devin_proxy.Prelude.{
  ℕ, zero, suc, ◌-◌, min, Text, codes, Bool, true, false, not, ◌&&◌, Option, none, some, List, [],
  ◌∷◌, ◌++◌, is_empty, set_add, discard, nat_eq, ltb, leb, if◌then◌else◌,
}
use devin_proxy.Data.{
  ErrDict, ErrKind, truncated, exception, protocol_error, build_error, no_account, retry_exhausted,
  retry_timeout, plain_error, decimal, failed, ChatResponse,
}
use devin_proxy.Accounts.Account.{Account, display}
use devin_proxy.Accounts.Failure.{dict}
use devin_proxy.Accounts.Pool.State.{Pool}
use devin_proxy.Accounts.Pool.Schedule.{Request, pick, release, mark_ok, mark_fail, pin}
use devin_proxy.App.Driver.Attempt.{
  Stream, clean, terminal, broken, Pass, Yield, from, from_none, yields_of, Tried, track_error,
  run_passes,
}

abbrev pub max_attempts : ℕ
max_attempts = 4

abbrev pub retry_after_retries_max : ℕ
retry_after_retries_max = 2

-- Whether `build_request` succeeds, with the number of tools, or raises, with the text and the
-- status of the response, if there is one.
pub data Build : Type 0 where
  built : ℕ → Build
  unbuilt : Text → Option ℕ → Build

-- What the driver is called with and what it meets, by the number of the attempt. `max_wait` and
-- `max_total` are _RETRY_AFTER_MAX_WAIT and _RETRY_AFTER_MAX_TOTAL; `tracked` tells that the driver
-- is given the in-flight tracker (`fl`).
pub record Env : Type 0 where
  pub live : Bool
  pub session_key : Text
  pub force_account : Option ℕ
  pub wanted : List Text
  pub remote : ℕ → Option (List ℕ × List ℕ)
  pub build : ℕ → Account → Build
  pub stream : ℕ → Account → Stream
  pub sanitized : ℕ → Account → Stream
  pub pick_time : ℕ → ℕ
  pub mark_time : ℕ → ℕ
  pub retry_clock : ℕ → ℕ
  pub cancelled : ℕ → Bool
  pub max_wait : ℕ
  pub max_total : ℕ
  pub lower : Text → Text
  pub tracked : Bool

-- The variables of the loop.
pub record Driver : Type 0 where
  pub pool : Pool
  pub tried : List ℕ
  pub last_err : ErrDict
  pub force_id : Option ℕ
  pub attempts : ℕ
  pub attempt : ℕ
  pub transient_retries : ℕ
  pub retry_after_retries : ℕ
  pub retry_started : Option ℕ

pub data Outcome : Type 0 where
  returned disconnected out_of_fuel : Outcome

-- What one turn of the loop does: go on, leave the loop, or end the generator.
pub data Turn : Type 0 where
  go : List Yield → Driver → Turn
  leave : Driver → Turn
  stop : List Yield → Pool → Outcome → Turn

abbrev pub status_error : ErrKind → ℕ → Text → ErrDict
status_error kind status message = record (plain_error kind message) { http_status = some status }

abbrev pub no_accounts : ErrDict
no_accounts = status_error no_account 503 (codes "no accounts configured")

abbrev pub no_eligible : ErrDict
no_eligible =
    status_error no_account 503
      (codes "no eligible account (all busy, cooling down, or model-restricted)")

abbrev pub exhausted : ErrDict
exhausted = status_error retry_exhausted 503 (codes "upstream retry attempt limit exhausted")

abbrev pub timed_out : ErrDict
timed_out = status_error retry_timeout 503 (codes "upstream retry time budget exhausted")

abbrev pub start : Env → Pool → Driver
start env p = record {
  pool = p;
  tried = [];
  last_err = no_accounts;
  force_id = env.force_account;
  attempts = elim env.force_account [ none ↦ max_attempts | some id ↦ 1 ];
  attempt = 0;
  transient_retries = 0;
  retry_after_retries = 0;
  retry_started = none;
}

-- the kinds of `("truncated", "exception", "protocol_error")`
abbrev pub is_cut : ErrKind → Bool
is_cut truncated = true
is_cut exception = true
is_cut protocol_error = true
is_cut _ = false

abbrev pub build_failure : Account → Text → Option ℕ → ErrDict
build_failure a message status =
    record (status_error build_error (elim status [ none ↦ 502 | some s ↦ or_502 s ])
      (display decimal a ++ codes ": " ++ message)) {
        transient = elim status [ none ↦ false | some s ↦ leb 500 s ];
      }
  where
    or_502 : ℕ → ℕ
    or_502 zero = 502
    or_502 (suc s) = suc s

module _ (env : Env) where
  unfoldable pub request : Driver → ℕ → Request
  request d n = record {
    session_key = env.session_key;
    exclude = d.tried;
    force_id = d.force_id;
    models = env.wanted;
    remote = env.remote n;
  }

  -- The end of a turn behind a terminal error: `mark_fail`, and the account may be tried again if
  -- the stream was cut.
  unfoldable pub fail_over : List Yield → Driver → ℕ → ErrDict → Turn
  fail_over sent d r e =
      let again = is_cut e.kind && ltb d.transient_retries 2 && ltb d.attempt d.attempts in
      go sent (record d {
        transient_retries = if again then suc d.transient_retries else d.transient_retries;
        tried = if again then discard (d.pool.objs r).id d.tried else d.tried;
        pool = mark_fail env.lower (env.mark_time d.attempt) d.pool r (dict e);
      })

  -- The turn ends by a wait and the same account may be tried again.
  unfoldable pub wait_and_retry : List Yield → Driver → ℕ → ErrDict → Turn
  wait_and_retry sent d r e =
      let p = mark_fail env.lower (env.mark_time d.attempt) d.pool r (dict e) in
      if env.cancelled d.attempt
      then stop sent p disconnected
      else go sent (record d {
        retry_after_retries = suc d.retry_after_retries;
        attempts = suc d.attempts;
        tried = discard (d.pool.objs r).id d.tried;
        force_id = elim env.force_account [ none ↦ d.force_id | some id ↦ some (d.pool.objs r).id ];
        pool = p;
      })

  -- when the first wait was asked for
  abbrev pub started : Driver → ℕ
  started d = elim d.retry_started [ none ↦ env.retry_clock d.attempt | some t ↦ t ]

  abbrev pub elapsed : Driver → ℕ
  elapsed d = env.retry_clock d.attempt - started d

  -- `if retry_started is None: retry_started = now`
  abbrev pub start_clock : Driver → Driver
  start_clock d = record d { retry_started = some (started d) }

  -- the wait is longer than what is left of the time for waits
  abbrev pub over_budget : Driver → ℕ → Bool
  over_budget d after = ltb (env.max_total - elapsed d) (min after env.max_wait)

  -- no further attempt is made
  abbrev pub give_up : Driver → ErrDict → Driver
  give_up d e = record d { last_err = e; attempts = d.attempt }

  -- `if not got_content and retry_after is not None`
  unfoldable pub retry_or_fail : List Yield → Driver → ℕ → ErrDict → Option ℕ → Turn
  unfolding fail_over wait_and_retry
  retry_or_fail sent d r e none = fail_over sent d r e
  retry_or_fail sent d r e (some after) =
      let d' = start_clock d in
      if leb retry_after_retries_max d.retry_after_retries
      then fail_over sent (give_up d' exhausted) r exhausted
      else if over_budget d after
      then fail_over sent (give_up d' timed_out) r timed_out
      else wait_and_retry sent d' r e

  -- What follows the passes of an attempt.
  unfoldable pub conclude : Driver → ℕ → List Yield → Pass → Turn
  unfolding retry_or_fail
  conclude d r sent pass = elim pass.ending [
    | broken e ↦
        stop (sent ++ from r (failed e) ∷ [])
          (release (mark_fail env.lower (env.mark_time d.attempt) d.pool r (dict e)) r) returned
    | clean ↦
        stop (if env.live then sent else sent ++ yields_of r pass.msgs)
          (pin (env.mark_time d.attempt) (mark_ok (env.mark_time d.attempt) d.pool r)
            env.session_key r)
          returned
    | terminal e ↦
        retry_or_fail sent (record d { last_err = e }) r e
          (if pass.got_content then none else e.retry_after)
  ]

  -- what the tracker raises on a message
  unfoldable pub track : ChatResponse → Option Text
  unfolding track_error
  track m = track_error env.lower env.tracked m

  -- the passes of the attempt on `r`
  abbrev pub passes_of : Driver → ℕ → ℕ → Tried
  passes_of d r n_tools =
      run_passes track env.live r n_tools (env.stream d.attempt (d.pool.objs r))
        (env.sanitized d.attempt (d.pool.objs r)) d.pool

  -- The attempt on the account that was picked, the pool being that behind `pick`.
  unfoldable pub try_account : Driver → ℕ → Build → Turn
  unfolding run_passes conclude
  try_account d r (unbuilt message status) =
      let a = d.pool.objs r in
      let e = build_failure a message status in
      go [] (record d {
        last_err = e;
        pool = mark_fail env.lower (env.mark_time d.attempt) (release d.pool r) r (dict e);
      })
  try_account d r (built n_tools) =
      let t = passes_of d r n_tools in conclude (record d { pool = t.pool }) r t.sent t.last

  -- `tried.add(acct.id); force_id = None`
  abbrev pub note_tried : Driver → Pool → ℕ → Driver
  note_tried d p r = record d { pool = p; tried = set_add (p.objs r).id d.tried; force_id = none }

  unfoldable pub on_pick : Driver → Pool × Option ℕ → Turn
  unfolding try_account
  on_pick d (p, none) = leave (record d {
    pool = p;
    last_err = if is_empty d.tried && not (is_empty d.pool.accs) then no_eligible else d.last_err;
  })
  on_pick d (p, some r) = try_account (note_tried d p r) r (env.build d.attempt (p.objs r))

  -- `attempt += 1`
  abbrev pub next_attempt : Driver → Driver
  next_attempt d = record d { attempt = suc d.attempt }

  -- One turn of `while attempt < attempts`.
  unfoldable pub turn : Driver → Turn
  unfolding on_pick request
  turn d =
      on_pick (next_attempt d)
        (pick (env.pick_time (suc d.attempt)) d.pool (request d (suc d.attempt)))

  -- behind the loop: `yield None, last_err`
  abbrev pub give_error : Driver → List Yield × Pool × Outcome
  give_error d = (from_none (failed d.last_err) ∷ [], d.pool, returned)

  abbrev pub prepend : List Yield → List Yield × Pool × Outcome → List Yield × Pool × Outcome
  prepend ys r = (ys ++ r.0, r.1, r.2)

  -- what follows a turn, given the rest of the loop
  abbrev pub after_turn :
      (Driver → List Yield × Pool × Outcome) → Turn → List Yield × Pool × Outcome
  after_turn rest (go ys d) = prepend ys (rest d)
  after_turn rest (leave d) = give_error d
  after_turn rest (stop ys p o) = (ys, p, o)

  -- The whole generator; the fuel bounds the turns.
  unfoldable pub drive : ℕ → Driver → List Yield × Pool × Outcome
  drive zero d = ([], d.pool, out_of_fuel)
  drive (suc f) d = elim (ltb d.attempt d.attempts) [
    | false ↦ give_error d
    | true ↦ after_turn (drive f) (turn d)
  ]

  -- Enough turns for the four attempts and the two retries after a wait.
  abbrev pub fuel : ℕ
  fuel = 7

  unfoldable pub iter_chat : Pool → List Yield × Pool × Outcome
  unfolding drive
  iter_chat p = drive fuel (start env p)
