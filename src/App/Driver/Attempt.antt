-- ===== src/App/Driver/Attempt.antt =====
-- One attempt of `_iter_chat` on one account: the loop over `stream_chat`, and the second pass with
-- sanitized tool descriptions. The request log only observes the driver and is left out; of the
-- in-flight tracker, which is told of each event first, the exception that it may raise is kept.
use devin_proxy.Prelude.{
  ℕ, Text, codes, Bool, true, false, not, ◌&&◌, ◌||◌, Option, none, some, List, [], ◌∷◌, ◌++◌, map,
  contains, nat_beq, is_empty, if◌then◌else◌,
}
use devin_proxy.Data.{
  ErrDict, ErrKind, upstream_error, exception, plain_error, ChatResponse, Event, msg, failed,
  Fields,
}
use devin_proxy.Upstream.Usage.{extract_usage}
use devin_proxy.Accounts.Pool.State.{Pool}
use devin_proxy.Accounts.Pool.Schedule.{release}

-- What the generator of `stream_chat` delivers: its events, and the exception that it may end by.
pub record Stream : Type 0 where
  pub events : List Event
  pub raises : Option Text

-- How a pass over a stream ends: cleanly; by a terminal error that the driver may fail over from;
-- or, once content has reached the client, by an error that is passed on.
pub data Ending : Type 0 where
  clean : Ending
  terminal : ErrDict → Ending
  broken : ErrDict → Ending

-- `got_content`, `saw_stop`, the messages that were yielded (live) or buffered, and the ending.
pub record Pass : Type 0 where
  pub got_content : Bool
  pub saw_stop : Bool
  pub msgs : List ChatResponse
  pub ending : Ending

-- an error that comes when content has arrived, or has not
abbrev pub error_ending : Bool → Bool → ErrDict → Ending
error_ending live got e = if got && live then broken e else terminal e

abbrev pub end_of : Bool → Bool → Option Text → Ending
end_of live got none = clean
end_of live got (some e) = error_ending live got (plain_error exception e)

abbrev pub ended : Bool → Ending → Pass
ended got e = record { got_content = got; saw_stop = false; msgs = []; ending = e }

-- `u.get(…)` on what `extract_usage` returns
abbrev pub get_error : Option Fields → Option Text
get_error none = some (codes "'NoneType' object has no attribute 'get'")
get_error (some u) = none

-- What `fl.event(fl_id, ev, acct)` raises on a message: with a tracker, an exception where the
-- message has reports of its use and `extract_usage` returns nothing. `str.lower` is a parameter.
unfoldable pub track_error : (Text → Text) → Bool → ChatResponse → Option Text
unfolding extract_usage
track_error lower tracked m =
    if tracked && not (is_empty m.usage) then get_error (extract_usage lower m) else none

-- `for ev in upstream.stream_chat(…)`, with the handler of its exceptions. The tracker is told of a
-- message before the message counts as content; `track` is what it raises.
unfoldable pub consume :
    (ChatResponse → Option Text) → Bool → Bool → List Event → Option Text → Pass
consume track live got [] raises = ended got (end_of live got raises)
consume track live got (failed e ∷ es) raises = ended got (error_ending live got e)
consume track live got (msg m ∷ es) raises = elim (track m) [
  | some t ↦ ended got (error_ending live got (plain_error exception t))
  | none ↦
      let rest = consume track live true es raises in
      record rest {
        msgs = m ∷ rest.msgs;
        saw_stop = not (nat_beq m.stop_reason 0) || rest.saw_stop;
      }
]

-- What a consumer of the driver receives: the account, by its object, and an event.
pub data Yield : Type 0 where
  from : ℕ → Event → Yield
  from_none : Event → Yield

abbrev pub yields_of : ℕ → List ChatResponse → List Yield
yields_of r ms = map (λ m. from r (msg m)) ms

abbrev pub is_mcp : ErrKind → Bool
is_mcp upstream_error = true
is_mcp _ = false

abbrev pub is_rejection : Ending → Bool
is_rejection (terminal e) = is_mcp e.kind && contains e.message (codes "MCP configuration issue")
is_rejection _ = false

-- The test for the second pass: a terminal error about the tool descriptions, and there are tools.
unfoldable pub wants_sanitizing : ℕ → Pass → Bool
wants_sanitizing n_tools pass = is_rejection pass.ending && not (nat_beq n_tools 0)

-- The attempt's last pass, what it has yielded, and the pool: `finally: pool.release(acct)` runs at
-- the end of each pass. A pass that returns with an error releases behind that (`broken`, below).
pub record Tried : Type 0 where
  pub last : Pass
  pub sent : List Yield
  pub pool : Pool

abbrev pub sent_live : Bool → ℕ → Pass → List Yield
sent_live live r pass = if live then yields_of r pass.msgs else []

abbrev pub is_broken : Ending → Bool
is_broken (broken e) = true
is_broken _ = false

-- the release at the end of a pass that does not return
abbrev pub release_unless_broken : Pool → ℕ → Ending → Pool
release_unless_broken p r e = if is_broken e then p else release p r

-- The inner `while True`: the streams are those of the request as built, and as sanitized.
unfoldable pub run_passes :
    (ChatResponse → Option Text) → Bool → ℕ → ℕ → Stream → Stream → Pool → Tried
unfolding consume wants_sanitizing
run_passes track live r n_tools first second p =
    let one = consume track live false first.events first.raises in
    let two = consume track live false second.events second.raises in
    let p₁ = release_unless_broken p r one.ending in
    if wants_sanitizing n_tools one
    then record {
      last = two;
      sent = sent_live live r one ++ sent_live live r two;
      pool = release_unless_broken p₁ r two.ending;
    }
    else record { last = one; sent = sent_live live r one; pool = p₁ }
