-- ===== src/Tests/Responses.antt =====
-- Inputs for the theorems about devin_proxy/responses.py and the chat endpoint of devin_proxy/app.py.
use devin_proxy.Prelude.{
  Text, codes, true, false, arith, ◌≡◌, ◌≢◌, refl, Option, none, some, List, [], ◌∷◌, ◌++◌, map,
  lookup, insert, text_beq, starts_with, length,
}
use devin_proxy.Data.{
  ChatResponse, ChatToolCall, msg, Fields, bool, obj, num, str, end, field, get, done,
}
use devin_proxy.App.ToolAgg.{ToolAgg, empty, feed, call_of}
use devin_proxy.App.ToolAgg.Deltas.{feed_all}
use devin_proxy.App.Messages.{map_messages, make_prompt, from_assistant}
use devin_proxy.App.Driver.Attempt.{Yield, from}
use devin_proxy.App.Driver.Loop.{returned, disconnected}
use devin_proxy.App.Chat.{sse_stream}
use devin_proxy.App.Request.{max_tokens}
use devin_proxy.App.Completion.{collect}
use devin_proxy.App.Chat.Agreement.{Tells, sse_stream-collect}
use devin_proxy.Responses.Stored.{given_items}
use devin_proxy.Responses.Input.{text_at, items_to_messages, normalize_input, text_or}
use devin_proxy.Responses.Output.{output_items, item_fields, dicts_json, custom_tool_names}
use devin_proxy.Responses.Stream.{send_yields, close_kind}
use devin_proxy.Responses.Reply.{Job, setup, opening, nothing_yet, sse, persist, collect_yields}
use devin_proxy.Responses.Reply
use devin_proxy.Responses.Reply.Accepted.{IsAccepted, sse-IsAccepted}
use devin_proxy.Responses.Reply.Answers.{Agrees, sse-collect}
use devin_proxy.Responses.Chain.{to_chat_body}
use devin_proxy.Responses.Chain.Continued.{to_chat_body-persist, save_all, mapped}
use devin_proxy.Responses.Chain.Replay.{map_messages-output_items}
use devin_proxy.App.Keys.{Caller, holder, KeyInfo, check_key}
use devin_proxy.App.Chat.Handler.{key_row, chat}
use devin_proxy.App.Chat.Handler as Chat
use devin_proxy.Responses.Handler.{Env, create_response}
use devin_proxy.Responses.Handler.Guard.{GivesBack, caller_row, routes-GivesBack}
use devin_proxy.Responses.WebSocket.{Wake, wake, Incoming, ws_stream}
use devin_proxy.Responses.WebSocket.Handler.{responses_ws}
use devin_proxy.Responses.WebSocket.Schedules.{ws_stream-sse, or_broken}

abbrev piece : Text → Text → List ChatToolCall → ChatResponse
piece thinking text calls = record {
  message_id = codes "m";
  delta_text = text;
  delta_thinking = thinking;
  delta_tool_calls = calls;
  stop_reason = 0;
  usage = [];
  info = none;
  elapsed = 0;
}

abbrev asks : Text → ChatToolCall
asks args = record { id = codes "c"; name = codes "f"; arguments = args }

-- Reasoning, a text, and a call in two pieces.
abbrev yields : List Yield
yields =
    from 0 (msg (piece (codes "so") [] []))
    ∷ from 0 (msg (piece [] (codes "hi") []))
    ∷ from 0 (msg (piece [] [] (asks (codes "{") ∷ [])))
    ∷ from 0 (msg (piece [] [] (asks (codes "{}") ∷ [])))
    ∷ []

-- Every text is read as the same value, but for the one that was written.
abbrev job : Job
job = record {
  body = field (codes "model") (str (codes "m")) end;
  model = codes "m";
  rid = codes "resp_1";
  session = none;
  items_in = [];
  created_at = 0;
  loads = λ t. none;
  dumps = λ j. [];
  lower = λ t. t;
  ids = λ p n. p;
}

not_disconnected : returned ≢ disconnected
not_disconnected e = cc

sse-IsAccepted_example :
    IsAccepted returned (send_yields (setup job) yields (opening job)).1 (sse job yields returned)
sse-IsAccepted_example = sse-IsAccepted job yields returned

-- Reasoning and a text.
abbrev spoken : List Yield
spoken = from 0 (msg (piece (codes "so") [] [])) ∷ from 0 (msg (piece [] (codes "hi") [])) ∷ []

sse-collect_example : Agrees (sse job spoken returned) (Reply.collect job spoken returned)
sse-collect_example = sse-collect job spoken returned not_disconnected (refl, (refl, tt))

sse_stream-collect_example :
    Tells true
      (sse_stream (λ t. t) true (codes "r") yields returned).0
      (collect (λ t. t) (codes "r") yields returned).0
unfolding text_beq
sse_stream-collect_example =
    sse_stream-collect (λ t. codes "f") (λ t. t) true (codes "r") yields returned not_disconnected
      (tt, (tt, ((refl, tt), ((refl, tt), tt))))

abbrev agg : ToolAgg
agg = feed_all empty (asks (codes "{}") ∷ [])

map_messages-output_items_example :
    (map_messages (
      items_to_messages
        (λ j. [])
        (map item_fields
          (output_items (λ t. none) (λ p n. p) [] 0 (codes "hi") (codes "so") agg)))).1
    ≡ make_prompt from_assistant (codes "hi") [] (asks (codes "{}") ∷ []) [] ∷ []
unfolding feed call_of lookup insert text_beq starts_with
map_messages-output_items_example =
    map_messages-output_items (λ t. none) (λ j. []) (λ p n. p) [] 0 (codes "hi") (codes "so") agg
      ((refl, refl), tt) refl

-- A message that was answered, and the request that goes on.
abbrev answer_items : List Fields
answer_items =
    field (codes "type") (str (codes "message"))
      (field (codes "role") (str (codes "assistant")) end)
    ∷ []

abbrev stored_job : Job
stored_job = record job { loads = λ t. some (dicts_json answer_items) }

abbrev next_body : Fields
next_body =
    field (codes "previous_response_id") (str (codes "resp_1"))
      (field (codes "input") (str (codes "on")) end)

to_chat_body-persist_example :
    to_chat_body stored_job.loads stored_job.dumps
      (save_all (persist stored_job none answer_items end) [])
      next_body
    ≡ done (
        mapped stored_job.loads stored_job.dumps next_body
          (answer_items ++ normalize_input (some (str (codes "on"))))
          none)
unfolding get text_or normalize_input text_beq
to_chat_body-persist_example =
    to_chat_body-persist stored_job none answer_items end next_body [] refl refl refl refl
      (refl, (refl, tt))

sse_runs : length (sse job yields returned).frames ≡ 21
unfolding sse feed lookup insert text_beq starts_with custom_tool_names get close_kind
sse_runs = refl

-- A key that may have one request at a time, and routes that answer with the yields above.
abbrev caller : Caller
caller =
    holder
      (record { id = 7; name = codes "k"; disabled = false; models = []; max_concurrent = some 1 })

abbrev chat_env : Chat.Env
chat_env = record {
  loads = λ t. done (obj (field (codes "stream") (bool true) end));
  lower = λ t. t;
  drawn = codes "r";
  begins = true;
  caller = caller;
  resolve_model = λ b. codes "m";
  session_key_for = λ b. none;
  iter_chat = λ live b k. (yields, returned);
}

abbrev env : Env
env = record {
  parse = λ t. done (obj (field (codes "stream") (bool true) end));
  loads = λ t. none;
  dumps = λ j. [];
  lower = λ t. t;
  ids = λ p n. p;
  created_at = 0;
  begins = true;
  caller = caller;
  stored = [];
  resolve_model = λ b. codes "m";
  fingerprint = λ ms. none;
  iter_chat = λ live b k. (yields, returned);
}

-- The client says something while the queue is not ready.
abbrev wakes : List Wake
wakes =
    wake none true
    ∷ wake (some Incoming.message) false
    ∷ wake none true
    ∷ wake (some Incoming.message) true
    ∷ wake none true
    ∷ wake none true
    ∷ []

abbrev key_info : Text → Option KeyInfo
key_info t =
    some
      (record { id = 7; name = codes "k"; disabled = false; models = []; max_concurrent = some 1 })

routes-GivesBack_example :
    GivesBack true (key_row caller) ((3, 2) ∷ []) (chat chat_env (codes "{}") ((3, 2) ∷ []))
    × GivesBack true (key_row caller) ((3, 2) ∷ []) (create_response env (codes "{}") ((3, 2) ∷ []))
    × GivesBack true
        (caller_row (check_key key_info (codes "p") (codes "Bearer x")))
        ((3, 2) ∷ [])
        (responses_ws env wakes key_info (codes "p") (codes "Bearer x") (codes "{}") ((3, 2) ∷ []))
routes-GivesBack_example =
    routes-GivesBack chat_env env wakes key_info (codes "p") (codes "Bearer x") (codes "{}")
      ((3, 2) ∷ [])

ws_stream-sse_example :
    ws_stream job wakes yields returned
    ≡ or_broken job
        (send_yields (setup job) yields (opening job)).1
        (send_yields (setup job) yields (opening job)).0
        (sse job yields returned)
ws_stream-sse_example =
    ws_stream-sse job wakes yields returned (refl, (refl, (refl, (refl, (refl, (refl, tt))))))
      (omega arith)

-- The items of a stored request are listed without those of the answer.
abbrev with_id : Text → Fields
with_id i = field (codes "id") (str i) end

given_items_runs :
    given_items
      (λ t. none)
      (obj (field (codes "output") (dicts_json (with_id (codes "b") ∷ [])) end))
      (dicts_json (with_id (codes "a") ∷ with_id (codes "b") ∷ []))
    ≡ with_id (codes "a") ∷ []
unfolding given_items text_at text_beq get
given_items_runs = refl

max_tokens_runs : max_tokens (some 100) (field (codes "max_output_tokens") (num 500) end) ≡ some 100
unfolding max_tokens get text_beq
max_tokens_runs = refl
