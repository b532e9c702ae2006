-- ===== src/App/Chat/Handler.antt =====
-- The route of the chat endpoint in devin_proxy/app.py: its checks, the slot of the key, and the
-- answer. `resolve_model`, `session_key_for` and the driver are functions of the body here; Models/Route,
-- App/Slots and App/Driver model them.
use devin_proxy.Prelude.{
  ℕ, Text, codes, Bool, true, false, Option, none, some, List, [], ◌∷◌, ◌++◌, if◌then◌else◌,
}
use devin_proxy.Data.{Json, Fields, obj, get, if_truthy, truthy, Try, done, raised, as_text}
use devin_proxy.App.Keys.{Caller, master, holder, model_allowed}
use devin_proxy.App.Slots.{Slots, Slot, KeyRow, acquire, release}
use devin_proxy.App.Ends.{Row}
use devin_proxy.App.Driver.Attempt.{Yield}
use devin_proxy.App.Driver.Loop.{Outcome}
use devin_proxy.App.Chat.{Chunk, sse_stream}
use devin_proxy.App.Completion.{Answer, collect}

-- What a request is answered with: an HTTP error, a stream, a stream whose generator the server never
-- begins, or a collected answer.
pub data Served {ℓ κ} (A : Type ℓ) (B : Type κ) : Type (ℓ ⊔ κ) where
  refused : ℕ → Text → Served A B
  streamed : A → Served A B
  unread : Served A B
  collected : B → Served A B

-- A request that has ended: the answer, the counts of the keys while the driver ran (if it ran), and
-- behind the request.
pub record Handled {ℓ κ} (A : Type ℓ) (B : Type κ) : Type (ℓ ⊔ κ) where
  pub served : Served A B
  pub rows : List Row
  pub during : List Slots
  pub after : Slots

-- `_release_gen`: the generator of a stream, wrapped in `try: yield from gen finally: release()`. The
-- `finally` runs when the generator ends or is closed; of one that is never begun nothing runs.
unfoldable pub release_gen {ℓ κ} :
    {A : Type ℓ} {B : Type κ} → Bool → A × List Row → Slot → Slots → Handled A B
unfolding release
release_gen true gen slot s = record {
  served = streamed gen.0;
  rows = gen.1;
  during = s ∷ [];
  after = release slot s;
}
release_gen false gen slot s = record { served = unread; rows = []; during = []; after = s }

-- The caller's row, for `acquire_key_slot`.
abbrev pub key_row : Caller → Option KeyRow
key_row master = none
key_row (holder k) = some (k.id, k.max_concurrent)

abbrev pub refusal_row : ℕ → Text → Row
refusal_row status text = record {
  ok = false;
  status = status;
  error = some text;
  usage = none;
  account = none;
}

abbrev pub refuse {ℓ κ} : {A : Type ℓ} {B : Type κ} → ℕ → Text → Text → Slots → Handled A B
refuse status text logged s = record {
  served = refused status text;
  rows = refusal_row status logged ∷ [];
  during = [];
  after = s;
}

abbrev pub not_an_object : Text
not_an_object = codes "request body must be a JSON object"

abbrev pub not_permitted : Text
not_permitted = codes "model not permitted for this key"

abbrev pub at_limit : Text
at_limit = codes "key concurrency limit reached"

-- What the route calls: `json.loads`, `str.lower`, the id that is drawn, and the driver, live or not;
-- and whether the server begins the generator of a streamed answer.
pub record Env : Type 0 where
  pub loads : Text → Try Json
  pub lower : Text → Text
  pub drawn : Text
  pub begins : Bool
  pub caller : Caller
  pub resolve_model : Fields → Text
  pub session_key_for : Fields → Option Text
  pub iter_chat : Bool → Fields → Option Text → List Yield × Outcome

abbrev pub is_true : Option Json → Bool
is_true none = false
is_true (some j) = truthy j

-- `(body.get("stream_options") or {}).get("include_usage")`
abbrev pub include_usage : Fields → Bool
include_usage body = elim (if_truthy (get (codes "stream_options") body)) [
  | some (obj d) ↦ is_true (get (codes "include_usage") d)
  | _ ↦ false
]

abbrev pub model_name : Fields → Text
model_name body = elim (as_text (get (codes "model") body)) [ none ↦ [] | some m ↦ m ]

abbrev pub Chat : Type 0
Chat = Handled (List Chunk) Answer

-- `try: return JSONResponse(_collect(…)) finally: release()`
unfoldable pub collect_slot : Answer × List Row → Slot → Slots → Handled (List Chunk) Answer
unfolding release
collect_slot whole slot s = record {
  served = collected whole.0;
  rows = whole.1;
  during = s ∷ [];
  after = release slot s;
}

module _ (env : Env) where
  abbrev pub answer : Fields → Slot → Slots → Chat
  answer body slot s =
      let live = is_true (get (codes "stream") body) in
      let run = env.iter_chat live body (env.session_key_for body) in
      if live
      then release_gen env.begins (sse_stream env.lower (include_usage body) env.drawn run.0 run.1)
          slot s
      else collect_slot (collect env.lower env.drawn run.0 run.1) slot s

  -- behind `acquire_key_slot`
  abbrev pub with_slot : Fields → Slots × Option Slot → Chat
  with_slot body (s, none) = refuse 429 at_limit at_limit s
  with_slot body (s, some slot) = answer body slot s

  abbrev pub chat_body : Fields → Slots → Chat
  chat_body body s =
      if model_allowed env.caller (model_name body) (env.resolve_model body)
      then with_slot body (acquire (key_row env.caller) s)
      else refuse 403 not_permitted not_permitted s

  abbrev pub parsed : Try Json → Slots → Chat
  parsed (raised e) s =
      refuse 400 (codes "invalid JSON body: " ++ e) (codes "invalid JSON body: " ++ e) s
  parsed (done (obj body)) s = chat_body body s
  parsed (done _) s = refuse 400 not_an_object (codes "body must be a JSON object") s

  -- `chat`
  unfoldable pub chat : Text → Slots → Chat
  unfolding get sse_stream collect release_gen collect_slot acquire model_allowed
  chat raw s = parsed (env.loads raw) s
