-- ===== src/Tests/Driver.antt =====
-- Inputs for the theorems about the failover driver of devin_proxy/app.py.
use devin_proxy.Prelude.{
  codes, true, false, ◌≡◌, refl, none, some, [], ◌∷◌, text_beq, nat_beq, starts_with, contains,
  if◌then◌else◌, Bool-cases, inl, inr,
}
use devin_proxy.Data.{ErrDict, upstream_error, truncated, plain_error, ChatResponse, msg, failed}
use devin_proxy.Accounts.Pool.Schedule.{pick, mark_fail, release, take_slot}
use devin_proxy.App.Driver.Attempt.{Stream, from, consume, wants_sanitizing}
use devin_proxy.App.Driver.Loop.{Env, built, iter_chat, turn, track, request, start}
use devin_proxy.App.Driver.Ends.{flight, IsPlain, iter_chat-SameFlight, KeepsFlight}
use devin_proxy.App.Driver.Rejected.{turn-rejected}
use devin_proxy.Accounts.Pool.State.{Pool}
use devin_proxy.Tests.Pool.{loaded}

abbrev word : ChatResponse
word = record {
  message_id = codes "m";
  delta_text = codes "hi";
  delta_thinking = [];
  delta_tool_calls = [];
  stop_reason = 0;
  usage = [];
  info = none;
  elapsed = 0;
}

abbrev cut : ErrDict
cut = plain_error truncated (codes "cut")

-- The first attempt is cut off before any content, the second is answered.
abbrev env : Env
env = record {
  live = true;
  session_key = codes "k";
  force_account = none;
  wanted = [];
  remote = λ n. none;
  build = λ n a. built 0;
  stream = λ n a. record {
    events = if nat_beq n 1 then failed cut ∷ [] else msg word ∷ [];
    raises = none;
  };
  sanitized = λ n a. record { events = []; raises = none };
  pick_time = λ n. 10;
  mark_time = λ n. 11;
  retry_clock = λ n. 12;
  cancelled = λ n. false;
  max_wait = 1800000;
  max_total = 120000;
  lower = λ t. t;
  tracked = true;
}

iter_chat_runs : (iter_chat env loaded).0 ≡ from 0 (msg word) ∷ []
unfolding iter_chat turn text_beq pick mark_fail release track
iter_chat_runs = refl

env-IsPlain : IsPlain env
unfolding consume wants_sanitizing track
env-IsPlain n a k h = elim (Bool-cases (nat_beq n 1)) [ inl e ↦ rw e refl | inr e ↦ rw e refl ]

iter_chat-SameFlight_example : flight (iter_chat env loaded).1 0 ≡ flight loaded 0
iter_chat-SameFlight_example = iter_chat-SameFlight env env-IsPlain loaded 0

abbrev rejected : Stream
rejected = record {
  events = failed (plain_error upstream_error (codes "MCP configuration issue")) ∷ [];
  raises = none;
}

abbrev answered : Stream
answered = record { events = msg word ∷ []; raises = none }

-- Another request is in flight on either account.
abbrev busy : Pool
busy = take_slot loaded 1

abbrev rejecting : Env
rejecting = record env {
  build = λ n a. built 3;
  stream = λ n a. rejected;
  sanitized = λ n a. answered;
}

pick_busy_runs : (pick 10 busy (request rejecting (start rejecting busy) 1)).1 ≡ some 0
unfolding pick text_beq request
pick_busy_runs = refl

turn-rejected_example : KeepsFlight (release busy 0) (turn rejecting (start rejecting busy))
unfolding consume wants_sanitizing contains starts_with
turn-rejected_example = turn-rejected rejecting (start rejecting busy) 0 3 pick_busy_runs refl refl
