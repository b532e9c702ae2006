-- ===== src/Responses/Handler/Guard.antt =====
-- The slot of a key over a whole request, on the routes of devin_proxy/app.py.
use devin_proxy.Prelude.{
  ℕ, Text, codes, List, [], ◌∷◌, Bool, ◌&&◌, sym, true, false, ◌≡◌, refl, ap, Option, none, some,
  All, if◌then◌else◌,
}
use devin_proxy.Data.{Json, Fields, null, bool, num, str, arr, obj, get, Try, done, raised}
use devin_proxy.App.Slots.{Slots, Slot, KeyRow, used, acquire, IsWithin, HasSlot, acquire-HasSlot}
use devin_proxy.App.Keys.{Caller, KeyInfo, model_allowed, check_key}
use devin_proxy.App.Ends.{Row}
use devin_proxy.App.Driver.Attempt.{Yield}
use devin_proxy.App.Driver.Loop.{Outcome}
use devin_proxy.App.Chat.{Chunk, sse_stream}
use devin_proxy.App.Completion.{Answer, collect}
use devin_proxy.App.Chat.Handler.{
  Handled, Served, unread, collected, key_row, is_true, model_name, refuse, chat,
}
use devin_proxy.App.Chat.Handler as Chat
use devin_proxy.Responses.Chain.{Mapped, to_chat_body}
use devin_proxy.Responses.Reply.{Streamed, sse}
use devin_proxy.Responses.Reply
use devin_proxy.Responses.WebSocket.{Wake}
use devin_proxy.Responses.WebSocket.Handler.{
  responses_ws, ws_called, handle_ws, ws_reply, ws_mapped, ws_with_slot, ws_parsed,
}
use devin_proxy.Responses.Handler.{
  Env, create_response, handle, handle_mapped, reply, with_slot, parsed, release_wrap, done_slot,
  finish, job_of,
}

abbrev pub is_unread {ℓ κ} : {A : Type ℓ} {B : Type κ} → Served A B → Bool
is_unread unread = true
is_unread _ = false

-- Behind a request every key has the count that it had before, unless the generator of its stream was
-- never begun: then the counts are those behind `acquire_key_slot`. While the driver runs the
-- caller's count is within its limit.
pub record GivesBack {ℓ κ} {A : Type ℓ} {B : Type κ} (begins : Bool) (key : Option KeyRow)
    (s : Slots) (h : Handled A B) : Type 0 where
  pub back : (i : ℕ) → used h.after i ≡ used (if is_unread h.served then (acquire key s).0 else s) i
  pub begun : is_unread h.served && begins ≡ false
  pub within : All (IsWithin key) h.during

refuse-GivesBack {ℓ κ} :
    {A : Type ℓ} {B : Type κ} (begins : Bool) (key : Option KeyRow) (s t : Slots) (n : ℕ)
    (text logged : Text)
    → ((i : ℕ) → used t i ≡ used s i)
    → GivesBack begins key s (refuse {A = A} {B = B} n text logged t)
refuse-GivesBack begins key s t n text logged h = record { back = h; begun = refl; within = tt }

module _ (key : Option KeyRow) (s t : Slots) (slot : Slot) (e : acquire key s ≡ (t, some slot))
    (h : HasSlot key s (t, some slot)) where
  release_gen-GivesBack :
      (begins : Bool) (gen : List Chunk × List Row)
      → GivesBack begins key s (Chat.release_gen {B = Answer} begins gen slot t)
  unfolding Chat.release_gen
  release_gen-GivesBack true gen = record { back = h.1; begun = refl; within = (h.0, tt) }
  release_gen-GivesBack false gen = record {
    back = λ i. ap (λ r. used r.0 i) (sym e);
    begun = refl;
    within = tt;
  }

  collect_slot-GivesBack :
      (begins : Bool) (whole : Answer × List Row)
      → GivesBack begins key s (Chat.collect_slot whole slot t)
  unfolding Chat.collect_slot
  collect_slot-GivesBack begins whole = record { back = h.1; begun = refl; within = (h.0, tt) }

  release_wrap-GivesBack :
      (begins : Bool) (gen : Streamed)
      → GivesBack begins key s (finish slot (release_wrap begins gen slot t, true))
  unfolding release_wrap done_slot
  release_wrap-GivesBack true gen = record { back = h.1; begun = refl; within = (h.0, tt) }
  release_wrap-GivesBack false gen = record {
    back = λ i. ap (λ r. used r.0 i) (sym e);
    begun = refl;
    within = tt;
  }

  refused-GivesBack :
      (begins : Bool) (n : ℕ) (text : Text)
      → GivesBack begins key s (finish slot (refuse n text text t, false))
  unfolding done_slot
  refused-GivesBack begins n text = record { back = h.1; begun = refl; within = tt }

module _ (env : Chat.Env) where
  with_slot-GivesBack :
      (body : Fields) (s : Slots) (r : Slots × Option Slot)
      → acquire (key_row env.caller) s ≡ r
      → HasSlot (key_row env.caller) s r
      → GivesBack env.begins (key_row env.caller) s (Chat.with_slot env body r)
  with_slot-GivesBack body s (t, none) e h =
      refuse-GivesBack env.begins (key_row env.caller) s t 429 _ _ (λ i. ap (λ x. used x i) h)
  with_slot-GivesBack body s (t, some slot) e h = by_live (is_true (get (codes "stream") body))
    where
      run : List Yield × Outcome
      run = env.iter_chat (is_true (get (codes "stream") body)) body (env.session_key_for body)

      by_live :
          (b : Bool)
          → GivesBack env.begins (key_row env.caller) s (
              if b
              then Chat.release_gen env.begins
                  (sse_stream env.lower (Chat.include_usage body) env.drawn run.0 run.1)
                  slot
                  t
              else Chat.collect_slot (collect env.lower env.drawn run.0 run.1) slot t)
      by_live true = release_gen-GivesBack (key_row env.caller) s t slot e h env.begins _
      by_live false = collect_slot-GivesBack (key_row env.caller) s t slot e h env.begins _

  chat_body-GivesBack :
      (body : Fields) (s : Slots)
      → GivesBack env.begins (key_row env.caller) s (Chat.chat_body env body s)
  chat_body-GivesBack body s =
      by_model (model_allowed env.caller (model_name body) (env.resolve_model body))
    where
      by_model :
          (b : Bool)
          → GivesBack env.begins (key_row env.caller) s (
              if b
              then Chat.with_slot env body (acquire (key_row env.caller) s)
              else refuse 403 Chat.not_permitted Chat.not_permitted s)
      by_model true = with_slot-GivesBack body s _ refl (acquire-HasSlot (key_row env.caller) s)
      by_model false = refuse-GivesBack env.begins (key_row env.caller) s s 403 _ _ (λ i. refl)

  chat-GivesBack :
      (raw : Text) (s : Slots) → GivesBack env.begins (key_row env.caller) s (chat env raw s)
  unfolding chat
  chat-GivesBack raw s = by_parse (env.loads raw)
    where
      by_parse : (t : Try Json) → GivesBack env.begins (key_row env.caller) s (Chat.parsed env t s)
      by_parse (raised e) = record { back = λ i. refl; begun = refl; within = tt }
      by_parse (done null) = record { back = λ i. refl; begun = refl; within = tt }
      by_parse (done (bool b)) = record { back = λ i. refl; begun = refl; within = tt }
      by_parse (done (num n)) = record { back = λ i. refl; begun = refl; within = tt }
      by_parse (done (str t)) = record { back = λ i. refl; begun = refl; within = tt }
      by_parse (done (arr js)) = record { back = λ i. refl; begun = refl; within = tt }
      by_parse (done (obj body)) = chat_body-GivesBack body s

module _ (env : Env) where
  handle-GivesBack :
      (body : Fields) (s t : Slots) (slot : Slot)
      → acquire (key_row env.caller) s ≡ (t, some slot)
      → HasSlot (key_row env.caller) s (t, some slot)
      → GivesBack env.begins (key_row env.caller) s (handle env body slot t)
  unfolding handle done_slot
  handle-GivesBack body s t slot e h = by_mapping (to_chat_body env.loads env.dumps env.stored body)
    where
      run : Mapped → List Yield × Outcome
      run m = env.iter_chat (is_true (get (codes "stream") body)) m.chat (job_of env body m).session

      by_live :
          (m : Mapped) (b : Bool)
          → GivesBack env.begins (key_row env.caller) s (
              finish slot (
                if b
                then (
                  release_wrap env.begins (sse (job_of env body m) (run m).0 (run m).1) slot t,
                  true,
                )
                else (
                  record {
                    served =
                        collected (Reply.collect (job_of env body m) (run m).0 (run m).1).answer;
                    rows = (Reply.collect (job_of env body m) (run m).0 (run m).1).rows;
                    during = t ∷ [];
                    after = t;
                  },
                  false,
                )))
      by_live m true = release_wrap-GivesBack (key_row env.caller) s t slot e h env.begins _
      by_live m false = record { back = h.1; begun = refl; within = (h.0, tt) }

      by_model :
          (m : Mapped) (b : Bool)
          → GivesBack env.begins (key_row env.caller) s (
              finish slot (
                if b
                then reply env body m slot t
                else (refuse 403 Chat.not_permitted Chat.not_permitted t, false)))
      by_model m true = by_live m (is_true (get (codes "stream") body))
      by_model m false = refused-GivesBack (key_row env.caller) s t slot e h env.begins 403 _

      by_mapping :
          (m : Try Mapped)
          → GivesBack env.begins
              (key_row env.caller)
              s
              (finish slot (handle_mapped env body slot t m))
      by_mapping (raised x) = refused-GivesBack (key_row env.caller) s t slot e h env.begins 400 x
      by_mapping (done m) =
          by_model m (model_allowed env.caller (model_name body) (env.resolve_model m.chat))

  slot-GivesBack :
      (body : Fields) (s : Slots) (r : Slots × Option Slot)
      → acquire (key_row env.caller) s ≡ r
      → HasSlot (key_row env.caller) s r
      → GivesBack env.begins (key_row env.caller) s (with_slot env body r)
  slot-GivesBack body s (t, none) e h =
      refuse-GivesBack env.begins (key_row env.caller) s t 429 _ _ (λ i. ap (λ x. used x i) h)
  slot-GivesBack body s (t, some slot) e h = handle-GivesBack body s t slot e h

  create_response-GivesBack :
      (raw : Text) (s : Slots)
      → GivesBack env.begins (key_row env.caller) s (create_response env raw s)
  unfolding create_response
  create_response-GivesBack raw s = by_parse (env.parse raw)
    where
      by_parse : (t : Try Json) → GivesBack env.begins (key_row env.caller) s (parsed env t s)
      by_parse (raised e) = record { back = λ i. refl; begun = refl; within = tt }
      by_parse (done null) = record { back = λ i. refl; begun = refl; within = tt }
      by_parse (done (bool b)) = record { back = λ i. refl; begun = refl; within = tt }
      by_parse (done (num n)) = record { back = λ i. refl; begun = refl; within = tt }
      by_parse (done (str t)) = record { back = λ i. refl; begun = refl; within = tt }
      by_parse (done (arr js)) = record { back = λ i. refl; begun = refl; within = tt }
      by_parse (done (obj body)) =
          slot-GivesBack body s _ refl (acquire-HasSlot (key_row env.caller) s)

-- On a socket the caller is known only when its token has been looked up.
abbrev pub caller_row : Option Caller → Option KeyRow
caller_row none = none
caller_row (some c) = key_row c

module _ (env : Env) (wakes : List Wake) where
  handle_ws-GivesBack :
      (body : Fields) (s t : Slots) (slot : Slot)
      → acquire (key_row env.caller) s ≡ (t, some slot)
      → HasSlot (key_row env.caller) s (t, some slot)
      → GivesBack true (key_row env.caller) s (handle_ws env wakes body slot t)
  unfolding handle_ws done_slot
  handle_ws-GivesBack body s t slot e h =
      by_mapping (to_chat_body env.loads env.dumps env.stored body)
    where
      by_model :
          (m : Mapped) (b : Bool)
          → GivesBack true (key_row env.caller) s (
              finish slot (
                (if b
                    then ws_reply env wakes body m t
                    else refuse 403 Chat.not_permitted Chat.not_permitted t),
                false,
              ))
      by_model m true = record { back = h.1; begun = refl; within = (h.0, tt) }
      by_model m false = refused-GivesBack (key_row env.caller) s t slot e h true 403 _

      by_mapping :
          (m : Try Mapped)
          → GivesBack true
              (key_row env.caller)
              s
              (finish slot (ws_mapped env wakes body t m, false))
      by_mapping (raised x) = refused-GivesBack (key_row env.caller) s t slot e h true 400 x
      by_mapping (done m) =
          by_model m (model_allowed env.caller (model_name body) (env.resolve_model m.chat))

  ws_slot-GivesBack :
      (body : Fields) (s : Slots) (r : Slots × Option Slot)
      → acquire (key_row env.caller) s ≡ r
      → HasSlot (key_row env.caller) s r
      → GivesBack true (key_row env.caller) s (ws_with_slot env wakes body r)
  ws_slot-GivesBack body s (t, none) e h =
      refuse-GivesBack true (key_row env.caller) s t 429 _ _ (λ i. ap (λ x. used x i) h)
  ws_slot-GivesBack body s (t, some slot) e h = handle_ws-GivesBack body s t slot e h

  ws_parsed-GivesBack :
      (p : Try Json) (s : Slots) → GivesBack true (key_row env.caller) s (ws_parsed env wakes p s)
  ws_parsed-GivesBack (raised e) s = record { back = λ i. refl; begun = refl; within = tt }
  ws_parsed-GivesBack (done null) s = record { back = λ i. refl; begun = refl; within = tt }
  ws_parsed-GivesBack (done (bool b)) s = record { back = λ i. refl; begun = refl; within = tt }
  ws_parsed-GivesBack (done (num n)) s = record { back = λ i. refl; begun = refl; within = tt }
  ws_parsed-GivesBack (done (str t)) s = record { back = λ i. refl; begun = refl; within = tt }
  ws_parsed-GivesBack (done (arr js)) s = record { back = λ i. refl; begun = refl; within = tt }
  ws_parsed-GivesBack (done (obj body)) s =
      ws_slot-GivesBack body s _ refl (acquire-HasSlot (key_row env.caller) s)

responses_ws-GivesBack :
    (env : Env) (wakes : List Wake) (key_info : Text → Option KeyInfo) (proxy_key auth raw : Text)
    (s : Slots)
    → GivesBack true
        (caller_row (check_key key_info proxy_key auth))
        s
        (responses_ws env wakes key_info proxy_key auth raw s)
unfolding responses_ws
responses_ws-GivesBack env wakes key_info proxy_key auth raw s =
    by_caller (check_key key_info proxy_key auth)
  where
    by_caller : (c : Option Caller) → GivesBack true (caller_row c) s (ws_called env wakes raw s c)
    by_caller none = record { back = λ i. refl; begun = refl; within = tt }
    by_caller (some c) = ws_parsed-GivesBack (record env { caller = c }) wakes (env.parse raw) s

-- A request to the chat endpoint or to the Responses API, over HTTP or over a WebSocket, gives back the
-- slot that it has taken, whatever its body is, whether it is refused, streamed or collected, and
-- however the driver ends: behind the request, which for a stream is when its generator has ended or
-- was closed, every key has the count that it had before. The exception is a streamed answer over HTTP
-- whose generator the server never begins: it keeps its slot, for the release stands in the generator's
-- own `finally`. While the driver runs, the count of a caller's key with a limit is within that limit.
pub routes-GivesBack :
    (chat_env : Chat.Env) (env : Env) (wakes : List Wake) (key_info : Text → Option KeyInfo)
    (proxy_key auth raw : Text) (s : Slots)
    → GivesBack chat_env.begins (key_row chat_env.caller) s (chat chat_env raw s)
      × GivesBack env.begins (key_row env.caller) s (create_response env raw s)
      × GivesBack true
          (caller_row (check_key key_info proxy_key auth))
          s
          (responses_ws env wakes key_info proxy_key auth raw s)
routes-GivesBack chat_env env wakes key_info proxy_key auth raw s = (
  chat-GivesBack chat_env raw s,
  create_response-GivesBack env raw s,
  responses_ws-GivesBack env wakes key_info proxy_key auth raw s,
)
