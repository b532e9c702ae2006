-- ===== src/Responses/WebSocket/Handler.antt =====
-- The WebSocket route in devin_proxy/app.py (`responses_ws`) and `handle_ws` of
-- devin_proxy/responses.py. An error is told as an object; its status here is that of the row, or the
-- code that closes the socket.
use devin_proxy.Prelude.{
  ℕ, Text, codes, true, false, Option, none, some, List, [], ◌∷◌, ◌++◌, if◌then◌else◌,
}
use devin_proxy.Data.{Json, Fields, obj, Try, done, raised}
use devin_proxy.App.Keys.{Caller, KeyInfo, model_allowed, check_key}
use devin_proxy.App.Slots.{Slots, Slot, acquire}
use devin_proxy.App.Chat.Handler.{
  refused, streamed, refuse, key_row, not_permitted, at_limit, model_name,
}
use devin_proxy.Responses.Chain.{Mapped, to_chat_body}
use devin_proxy.Responses.Handler.{Env, Handling, job_of, done_slot, finish}
use devin_proxy.Responses.WebSocket.{Wake, ws_stream}

-- What is told without a row.
abbrev pub tell : ℕ → Text → Slots → Handling
tell status text s = record { served = refused status text; rows = []; during = []; after = s }

module _ (env : Env) (wakes : List Wake) where
  abbrev pub ws_reply : Fields → Mapped → Slots → Handling
  ws_reply body m s =
      let job = job_of env body m in
      let run = env.iter_chat true m.chat job.session in
      let stream = ws_stream job wakes run.0 run.1 in
      record { served = streamed stream.frames; rows = stream.rows; during = s ∷ []; after = s }

  -- the body of `handle_ws`
  abbrev pub ws_mapped : Fields → Slots → Try Mapped → Handling
  ws_mapped body s (raised e) = refuse 400 e e s
  ws_mapped body s (done m) =
      if model_allowed env.caller (model_name body) (env.resolve_model m.chat)
      then ws_reply body m s
      else refuse 403 not_permitted not_permitted s

  -- `handle_ws`; nothing sets `released` before its `finally: done()`.
  unfoldable pub handle_ws : Fields → Slot → Slots → Handling
  unfolding to_chat_body job_of ws_stream done_slot model_allowed
  handle_ws body slot s =
      finish slot (ws_mapped body s (to_chat_body env.loads env.dumps env.stored body), false)

  abbrev pub ws_with_slot : Fields → Slots × Option Slot → Handling
  ws_with_slot body (s, none) = refuse 429 at_limit at_limit s
  ws_with_slot body (s, some slot) = handle_ws body slot s

  abbrev pub ws_parsed : Try Json → Slots → Handling
  ws_parsed (raised e) s = tell 400 (codes "invalid JSON body: " ++ e) s
  ws_parsed (done (obj body)) s = ws_with_slot body (acquire (key_row env.caller) s)
  ws_parsed (done _) s = tell 400 (codes "body must be a JSON object") s

abbrev pub ws_called : Env → List Wake → Text → Slots → Option Caller → Handling
ws_called env wakes raw s none = tell 4401 [] s
ws_called env wakes raw s (some c) = ws_parsed (record env { caller = c }) wakes (env.parse raw) s

-- `responses_ws`; the token is that of the handshake.
unfoldable pub responses_ws :
    Env → List Wake → (Text → Option KeyInfo) → Text → Text → Text → Slots → Handling
unfolding handle_ws acquire check_key
responses_ws env wakes key_info proxy_key auth raw s =
    ws_called env wakes raw s (check_key key_info proxy_key auth)
