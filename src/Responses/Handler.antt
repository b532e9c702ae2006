-- ===== src/Responses/Handler.antt =====
-- The route of the Responses API in devin_proxy/app.py (`create_response`) and the handler behind it
-- in devin_proxy/responses.py (`handle`). `resolve_model`, the driver and `_fingerprint`, which is a
-- hash of the first messages, are functions of the mapped request here.
pub mod Guard
use devin_proxy.Prelude.{
  ℕ, Text, codes, Bool, true, false, Option, none, some, List, [], ◌∷◌, ◌++◌, or_else, is_empty,
  if◌then◌else◌,
}
use devin_proxy.Data.{Json, Fields, obj, get, Try, done, raised}
use devin_proxy.App.Keys.{Caller, model_allowed}
use devin_proxy.App.Slots.{Slots, Slot, acquire, release}
use devin_proxy.App.Ends.{Row}
use devin_proxy.App.Driver.Attempt.{Yield}
use devin_proxy.App.Driver.Loop.{Outcome}
use devin_proxy.App.Chat.Handler.{
  Handled, refused, streamed, unread, collected, refuse, refusal_row, key_row, not_an_object,
  not_permitted, at_limit, is_true, model_name,
}
use devin_proxy.App.Messages.{Message}
use devin_proxy.Responses.Input.{text_or}
use devin_proxy.Responses.Output.{Ids}
use devin_proxy.Responses.Stream.{Frame}
use devin_proxy.Responses.Reply.{Job, Saved, Streamed, Answered, sse}
use devin_proxy.Responses.Reply
use devin_proxy.Responses.Chain.{Table, ChatBody, Mapped, to_chat_body, conversation_of}

pub record Env : Type 0 where
  pub parse : Text → Try Json
  pub loads : Text → Option Json
  pub dumps : Json → Text
  pub lower : Text → Text
  pub ids : Ids
  pub created_at : ℕ
  pub begins : Bool
  pub caller : Caller
  pub stored : Table
  pub resolve_model : ChatBody → Text
  pub fingerprint : List Message → Option Text
  pub iter_chat : Bool → ChatBody → Option Text → List Yield × Outcome

abbrev pub Handling : Type 0
Handling = Handled (List Frame) (Try (ℕ × Fields))

-- `_release_wrap`: as `_release_gen` of the chat route, with its own `finally`.
unfoldable pub release_wrap : Bool → Streamed → Slot → Slots → Handling
unfolding release
release_wrap true gen slot s = record {
  served = streamed gen.frames;
  rows = gen.rows;
  during = s ∷ [];
  after = release slot s;
}
release_wrap false gen slot s = record { served = unread; rows = []; during = []; after = s }

-- The local `done()` of `handle` and `handle_ws`, on the flag `released` and the counts.
unfoldable pub done_slot : Slot → Bool → Slots → Slots
unfolding release
done_slot slot released s = if released then s else release slot s

-- `try: … finally: done()`: what the body has come to, with its flag.
abbrev pub finish : Slot → Handling × Bool → Handling
finish slot (h, released) = record h { after = done_slot slot released h.after }

-- `a or b`, for keys
abbrev pub or_key : Option Text → Option Text → Option Text
or_key (some (c ∷ k)) other = some (c ∷ k)
or_key _ other = other

-- a text with a prefix, if there is a text
abbrev pub prefixed : Text → Text → Option Text
prefixed p [] = none
prefixed p (c ∷ t) = some (p ++ (c ∷ t))

module _ (env : Env) where
  -- The sticky key: the chain's, the conversation's, the previous response's, the first messages', or the
  -- user's.
  unfoldable pub session_of : Fields → Mapped → Option Text
  unfolding text_or get
  session_of body m =
      let user =
        text_or (codes "user") body
          (text_or (codes "prompt_cache_key") body (text_or (codes "safety_identifier") body [])) in
      or_key m.chain (
        or_key (prefixed (codes "conv:") (conversation_of (get (codes "conversation") body))) (
          or_key (prefixed (codes "resp:") (text_or (codes "previous_response_id") body []))
            (or_key (env.fingerprint m.chat.messages) (prefixed (codes "u:") user))))

  unfoldable pub job_of : Fields → Mapped → Job
  unfolding session_of
  job_of body m = record {
    body = body;
    model = env.resolve_model m.chat;
    rid = env.ids (codes "resp") 0;
    session = session_of body m;
    items_in = m.items;
    created_at = env.created_at;
    loads = env.loads;
    dumps = env.dumps;
    lower = env.lower;
    ids = env.ids;
  }

  -- The answer, and whether the wrapper of its generator owns the slot (`released = True`).
  abbrev pub reply : Fields → Mapped → Slot → Slots → Handling × Bool
  reply body m slot s =
      let live = is_true (get (codes "stream") body) in
      let job = job_of body m in
      let run = env.iter_chat live m.chat job.session in
      let whole = Reply.collect job run.0 run.1 in
      if live then (release_wrap env.begins (sse job run.0 run.1) slot s, true) else (
        record { served = collected whole.answer; rows = whole.rows; during = s ∷ []; after = s },
        false,
      )

  -- the body of `handle`
  abbrev pub handle_mapped : Fields → Slot → Slots → Try Mapped → Handling × Bool
  handle_mapped body slot s (raised e) = (refuse 400 e e s, false)
  handle_mapped body slot s (done m) =
      if model_allowed env.caller (model_name body) (env.resolve_model m.chat)
      then reply body m slot s
      else (refuse 403 not_permitted not_permitted s, false)

  unfoldable pub handle : Fields → Slot → Slots → Handling
  unfolding to_chat_body job_of sse Reply.collect get release_wrap done_slot model_allowed
  handle body slot s =
      finish slot (handle_mapped body slot s (to_chat_body env.loads env.dumps env.stored body))

  abbrev pub with_slot : Fields → Slots × Option Slot → Handling
  with_slot body (s, none) = refuse 429 at_limit at_limit s
  with_slot body (s, some slot) = handle body slot s

  abbrev pub parsed : Try Json → Slots → Handling
  parsed (raised e) s =
      refuse 400 (codes "invalid JSON body: " ++ e) (codes "invalid JSON body: " ++ e) s
  parsed (done (obj body)) s = with_slot body (acquire (key_row env.caller) s)
  parsed (done _) s = refuse 400 not_an_object (codes "body must be a JSON object") s

  -- `create_response`
  unfoldable pub create_response : Text → Slots → Handling
  unfolding handle acquire
  create_response raw s = parsed (env.parse raw) s
