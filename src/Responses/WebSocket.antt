-- ===== src/Responses/WebSocket.antt =====
-- The WebSocket transport of devin_proxy/responses.py (`_ws_stream`): a thread pumps what the driver
-- yields into a queue, and the loop waits for the queue and for the client at once. Which of them are
-- ready when it wakes up is a schedule.
pub mod Schedules
pub mod Handler
pub mod Items
use devin_proxy.Prelude.{
  ℕ, suc, Text, codes, Bool, true, false, Option, none, some, List, [], ◌∷◌, ◌++◌, map,
}
use devin_proxy.Data.{
  ErrDict, kind_text, Event, ChatResponse, msg, failed, Fields, null, Try, done, raised,
}
use devin_proxy.Upstream.Usage.{add_usage}
use devin_proxy.App.Ends.{LoopEnd, through, at_error, crashed, Row, failed_row, ok_row, aborted_row}
use devin_proxy.App.Driver.Attempt.{Yield, from, from_none}
use devin_proxy.App.Driver.Loop.{Outcome, returned, disconnected, out_of_fuel}
use devin_proxy.Responses.Output.{completed, output_items, response_object}
use devin_proxy.Responses.Stream.{
  Frame, done_line, Emitter, Setup, emit, with_account, rs_id, msg_id, response_completed,
  response_failed, error_event,
}
use devin_proxy.Responses.WebSocket.Items.{ws_close_open, ws_send_message}
use devin_proxy.Responses.Reply.{
  Job, Streamed, setup, opening, response, code_json, keep_ids, persist, sent_only,
}

-- What is in the queue: what the driver yields, an exception of the thread, that the client has gone, and
-- STOP.
pub data Queued : Type 0 where
  got : Yield → Queued
  broke : Text → Queued
  gone : Queued
  stop : Queued

-- `_pump`
abbrev pub pump_end : Outcome → List Queued
pump_end disconnected = gone ∷ stop ∷ []
pump_end returned = stop ∷ []
pump_end out_of_fuel = stop ∷ []

unfoldable pub pump : List Yield → Outcome → List Queued
pump ys o = map got ys ++ pump_end o

-- What the client sends: a message, that it leaves, or a failure of the connection.
pub data Incoming : Type 0 where
  message leave failure : Incoming

-- A wake-up of the loop: what has come from the client, and whether the queue is ready.
pub data Wake : Type 0 where
  wake : Option Incoming → Bool → Wake

abbrev pub leaves : Option Incoming → Bool
leaves (some leave) = true
leaves (some failure) = true
leaves (some message) = false
leaves none = false

-- How the loop ends; `waiting` where the schedule is over before it does.
pub data WsEnd : Type 0 where
  finished aborted waiting : WsEnd
  met : ErrDict → WsEnd
  proxy_error : Text → WsEnd

module _ (given : Setup) where
  -- Behind a message its usage is counted; an exception is caught.
  abbrev pub ws_resume :
      (Emitter → Emitter × WsEnd) → Emitter → Try (Option Fields) → Emitter × WsEnd
  ws_resume rest s (raised e) = (s, proxy_error e)
  ws_resume rest s (done u) = rest (record s { usage = u })

  abbrev pub ws_event : (Emitter → Emitter × WsEnd) → Emitter → Event → Emitter × WsEnd
  ws_event rest s (failed e) = (s, met e)
  ws_event rest s (msg m) =
      let s' = ws_send_message given m s in ws_resume rest s' (add_usage given.lower s'.usage m)

  -- What the queue has next; `rest` is the loop on what is behind it.
  abbrev pub ws_take :
      (List Queued → Emitter → Emitter × WsEnd) → List Queued → Emitter → Emitter × WsEnd
  ws_take rest [] s = rest [] s
  ws_take rest (stop ∷ q) s = (s, finished)
  ws_take rest (gone ∷ q) s = (s, aborted)
  ws_take rest (broke e ∷ q) s = (s, proxy_error e)
  ws_take rest (got (from r e) ∷ q) s = ws_event (rest q) (with_account s r) e
  ws_take rest (got (from_none e) ∷ q) s = ws_event (rest q) s e

  abbrev pub ws_wake :
      (List Queued → Emitter → Emitter × WsEnd)
      → Bool
      → Bool
      → List Queued
      → Emitter
      → Emitter × WsEnd
  ws_wake rest true ready q s = (s, aborted)
  ws_wake rest false false q s = rest q s
  ws_wake rest false true q s = ws_take rest q s

  unfoldable pub ws_loop : List Wake → List Queued → Emitter → Emitter × WsEnd
  unfolding ws_send_message add_usage
  ws_loop [] q s = (s, waiting)
  ws_loop (wake inc ready ∷ ws) q s = ws_wake (ws_loop ws) (leaves inc) ready q s

module _ (job : Job) where
  -- The last message, which says that the stream is done, is the frame that ends a stream.
  unfoldable pub ws_failure : Text → Text → Row → Emitter → Streamed
  unfolding response_object
  ws_failure text code row s =
      let s' =
        emit
          (emit s
            (response_failed (response job (codes "failed") (code_json code text) [] s.usage)))
          (error_event code text) in
      record { frames = s'.sent ++ done_line ∷ []; rows = row ∷ []; saved = [] }

  unfoldable pub ws_response : Emitter → Streamed
  unfolding response_object output_items keep_ids persist
  ws_response s =
      let items =
        keep_ids (rs_id (setup job)) (msg_id (setup job)) s.fc_items
          (output_items job.loads job.ids (setup job).custom (suc s.drawn) s.text s.think s.agg) in
      let resp = response job completed null items s.usage in
      record {
        frames = (emit s (response_completed resp)).sent ++ done_line ∷ [];
        rows = ok_row s.usage s.account ∷ [];
        saved = persist job s.account items resp;
      }

  abbrev pub ws_failed : ErrDict → Emitter → Streamed
  ws_failed e s = ws_failure e.message (kind_text e.kind) (failed_row e s.usage s.account) s

  abbrev pub ws_broken : Text → Emitter → Streamed
  ws_broken e s =
      ws_failure e (codes "proxy_error")
        (record { ok = false; status = 502; error = some e; usage = s.usage; account = s.account })
        s

  -- Behind the loop.
  unfoldable pub ws_end : Emitter × WsEnd → Streamed
  unfolding ws_failure ws_response
  ws_end (s, finished) = ws_response (ws_close_open (setup job) s)
  ws_end (s, met e) = ws_failed e (ws_close_open (setup job) s)
  ws_end (s, proxy_error e) = ws_broken e (ws_close_open (setup job) s)
  ws_end (s, aborted) = sent_only s (aborted_row s.usage s.account ∷ [])
  ws_end (s, waiting) = sent_only s []

  -- `_ws_stream`
  unfoldable pub ws_stream : List Wake → List Yield → Outcome → Streamed
  unfolding pump ws_loop ws_end response_object
  ws_stream ws ys o = ws_end (ws_loop (setup job) ws (pump ys o) (opening job))
