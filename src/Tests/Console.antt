-- ===== src/Tests/Console.antt =====
-- Inputs for the theorems about devin_proxy/admin_ctx.py, and about the request log, the slots of
-- the keys and the messages of devin_proxy/app.py.
use devin_proxy.Prelude.{
  insert, none, false, is_empty, nat_eq, ℕ, ◌+◌, ◌*◌, ◌-◌, ◌≤◌, ◌<◌, Text, codes, true, false, not,
  ◌≡◌, ◌≢◌, ◌↔◌, refl, Option, some, List, [], ◌∷◌, ◌++◌, arith, length, ltb, elem, text_eq, lookup,
  text_beq,
}
use devin_proxy.Data.{ErrDict, ChatResponse, msg, ChatToolCall, decimal, digits_of}
use devin_proxy.App.Inflight
use devin_proxy.App.Keys
use devin_proxy.App.Inflight.Tails
use devin_proxy.Tests.Pool.{loaded}
use devin_proxy.Admin.Login.{Hits, hits_of, login_check}
use devin_proxy.Admin.Lockout.{recent, login_check_lem}
use devin_proxy.Admin.Session.{
  sess_ttl, ws_ticket_ttl, sess_token, ws_ticket, sess_ok, ws_ticket_ok,
}
use devin_proxy.Admin.Tokens.{sess_ok-sess_token, sess_ok-ws_ticket}
use devin_proxy.App.Messages.{
  Message, Prompt, plain, user, assistant, tool, from_user, from_assistant, from_tool, make_prompt,
  map_messages, merge, absorb,
}
use devin_proxy.App.Messages.Merging.{Alternates, calls_in, images_in, merge-Alternates}
use devin_proxy.App.Messages.Answers.{call_ids, map_messages-Answered}
use devin_proxy.App.ReqLog.{Limits, Attempt}
use devin_proxy.App.ReqLog.Caps.{run}
use devin_proxy.App.Slots.{Slots, held, acquire, release, used, release-acquire}

abbrev hits : Hits
hits = (codes "ip", 1000 ∷ 2000 ∷ []) ∷ []

login_check_lem_example :
    ((login_check 2 300000 3000 hits (codes "ip")).1 ≡ 0)
    ↔ (length (recent 3000 300000 (hits_of hits (codes "ip"))) < 2)
unfolding lookup text_beq
login_check_lem_example =
    login_check_lem 2 300000 3000 hits (codes "ip") (omega arith) ((omega arith, tt), (tt, tt))

abbrev read : ℕ → Text → ℕ
read n [] = n
read n (c ∷ t) = read (10 * n + (c - 48)) t

abbrev int : Text → Option ℕ
int t = some (read 0 t)

abbrev hmac : Text → Text → Text
hmac key t = key ++ t

reads_session : int (decimal (5 + sess_ttl)) ≡ some (5 + sess_ttl)
unfolding decimal digits_of
reads_session = refl

reads_ticket : int (decimal (5 + ws_ticket_ttl)) ≡ some (5 + ws_ticket_ttl)
unfolding decimal digits_of
reads_ticket = refl

sess_ok-sess_token_example :
    (sess_ok hmac int (codes "k") 65001 (sess_token hmac int (codes "k") 5300)
      ≡ not (ltb ((5 + sess_ttl) * 1000) 65001))
    × (ws_ticket_ok hmac int (codes "k") 65001 (ws_ticket hmac int (codes "k") 5300)
        ≡ not (ltb ((5 + ws_ticket_ttl) * 1000) 65001))
sess_ok-sess_token_example =
    sess_ok-sess_token hmac int (codes "k") 5300 65001 reads_session reads_ticket

session_differs :
    hmac (codes "k") (decimal (5 + sess_ttl))
    ≢ hmac (codes "k") (codes "ws:" ++ decimal (5 + sess_ttl))
unfolding decimal digits_of
session_differs h = cc

ticket_differs :
    hmac (codes "k") (decimal (5 + ws_ticket_ttl))
    ≢ hmac (codes "k") (codes "ws:" ++ decimal (5 + ws_ticket_ttl))
unfolding decimal digits_of
ticket_differs h = cc

sess_ok-ws_ticket_example :
    (sess_ok hmac int (codes "k") 7000 (ws_ticket hmac int (codes "k") 5300) ≡ false)
    × (ws_ticket_ok hmac int (codes "k") 7000 (sess_token hmac int (codes "k") 5300) ≡ false)
sess_ok-ws_ticket_example =
    sess_ok-ws_ticket hmac int (codes "k") 5300 7000 reads_session reads_ticket session_differs
      ticket_differs

abbrev call : ChatToolCall
call = record { id = codes "c"; name = codes "f"; arguments = codes "{}" }

abbrev chat : List Message
chat =
    user (plain (codes "a"))
    ∷ user (plain (codes "b"))
    ∷ assistant (plain []) (call ∷ [])
    ∷ tool (plain (codes "r")) (codes "c")
    ∷ tool (plain (codes "s")) (codes "d")
    ∷ []

abbrev prompts : List Prompt
prompts =
    make_prompt from_user (codes "a") [] [] []
    ∷ make_prompt from_user (codes "b") [] [] []
    ∷ make_prompt from_assistant [] [] (call ∷ []) []
    ∷ []

merge-Alternates_example :
    Alternates (merge prompts)
    × (calls_in (merge prompts) ≡ calls_in prompts)
    × (images_in (merge prompts) ≡ images_in prompts)
merge-Alternates_example = merge-Alternates prompts

abbrev before : List Prompt
before =
    absorb (make_prompt from_user (codes "a") [] [] []) (make_prompt from_user (codes "b") [] [] [])
    ∷ make_prompt from_assistant [] [] (call ∷ []) []
    ∷ []

map_messages_runs :
    (map_messages chat).1 ≡ before ++ make_prompt from_tool (codes "r") (codes "c") [] [] ∷ []
unfolding map_messages text_beq
map_messages_runs = refl

map_messages-Answered_example : elem (codes "c") (call_ids before) ≡ true
map_messages-Answered_example =
    map_messages-Answered chat before [] (make_prompt from_tool (codes "r") (codes "c") [] [])
      map_messages_runs refl refl

abbrev limits : Limits
limits = record { log_cap = 200; cap_max = 5; dumps = λ j. []; dumps_entry = λ e. codes "entry" }

abbrev attempt_of : Text → Attempt
attempt_of b64 = record {
  attempt = 1;
  account = codes "a";
  server = codes "s";
  model = codes "m";
  sanitized_desc = false;
  request_pb_b64 = b64;
  redacted = [];
}

abbrev busy : Slots
busy = (4, 1) ∷ []

release-acquire_example :
    (used (release (held 4) (acquire (some (4, some 2)) busy).0) 4 ≡ used busy 4)
    × (used (acquire (some (4, some 2)) busy).0 4 ≤ 2)
unfolding acquire lookup
release-acquire_example = release-acquire 4 1 4 busy (held 4) refl

abbrev hello : ChatResponse
hello = record {
  message_id = [];
  delta_text = codes "hi";
  delta_thinking = [];
  delta_tool_calls = [];
  stop_reason = 0;
  usage = [];
  info = none;
  elapsed = 0;
}

abbrev unnamed : ErrDict → Text
unnamed d = codes "?"

abbrev watched : List Tails.Call
watched = Tails.registers 5 ∷ Tails.events 6 1 (msg hello) (loaded.objs 0) ∷ []

abbrev seen : Inflight.Entry
seen = Inflight.see unnamed 6 (loaded.objs 0) (msg hello) (Inflight.new_entry 5)

watched_runs :
    lookup 1 (Tails.run unnamed (record { reqs = []; next = 0 }) watched).reqs ≡ some seen
unfolding lookup insert Inflight.register Inflight.event
watched_runs = refl

run_tail_le_example : length seen.tail ≤ 400
run_tail_le_example = Tails.run_tail_le unnamed watched 0 1 seen watched_runs

abbrev created : Keys.KeyInfo
created = record { id = 7; name = codes "n"; disabled = false; models = []; max_concurrent = none }

abbrev key_store : Text → Option Keys.KeyInfo
key_store t = some created

check_key_lem_example :
    (Keys.check_key key_store (codes "m") (codes "Bearer t") ≡ some Keys.master ↔ (
      (is_empty (Keys.bearer (codes "Bearer t")) ≡ false)
      × (text_beq (Keys.bearer (codes "Bearer t")) (codes "m") ≡ true)))
    × (Keys.check_key key_store (codes "m") (codes "Bearer t") ≡ some (Keys.holder created) ↔ (
        (is_empty (Keys.bearer (codes "Bearer t")) ≡ false)
        × (text_beq (Keys.bearer (codes "Bearer t")) (codes "m") ≡ false)
        × (key_store (Keys.bearer (codes "Bearer t")) ≡ some created)
        × (created.disabled ≡ false)))
check_key_lem_example = Keys.check_key_lem key_store (codes "m") (codes "Bearer t") created
