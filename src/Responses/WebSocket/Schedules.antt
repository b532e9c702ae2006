-- ===== src/Responses/WebSocket/Schedules.antt =====
-- The WebSocket transport of devin_proxy/responses.py sends the events of `_sse`, whatever the schedule.
use devin_proxy.Prelude.{
  ℕ, suc, ◌<◌, true, false, ◌≡◌, refl, ap, ◌∙◌, Option, List, [], ◌∷◌, length, arith,
}
use devin_proxy.Data.{msg, failed, Fields, Try, done, raised}
use devin_proxy.App.Ends.{LoopEnd, through, at_error, crashed}
use devin_proxy.App.Driver.Attempt.{Yield, from, from_none}
use devin_proxy.App.Driver.Loop.{Outcome, returned, disconnected, out_of_fuel}
use devin_proxy.Responses.Stream.{Emitter, send_yields, with_account, resume, close_open}
use devin_proxy.Responses.WebSocket.Items.{ws_send_message-send_message, ws_close_open-close_open}
use devin_proxy.Responses.Reply.{
  Job, Streamed, setup, opening, sse, end_stream, send_failure, send_response,
}
use devin_proxy.Responses.WebSocket.{
  Wake, wake, leaves, WsEnd, finished, aborted, met, proxy_error, pump, ws_resume, ws_loop, ws_end,
  ws_stream, ws_failure, ws_response, ws_broken,
}

-- The client does not leave, and how often the queue is ready.
abbrev pub IsQuiet : List Wake → Type 0
IsQuiet [] = Unit
IsQuiet (wake inc ready ∷ ws) = (leaves inc ≡ false) × IsQuiet ws

abbrev pub readiness : List Wake → ℕ
readiness [] = 0
readiness (wake inc true ∷ ws) = suc (readiness ws)
readiness (wake inc false ∷ ws) = readiness ws

abbrev ws_end_of : Outcome → LoopEnd → WsEnd
ws_end_of disconnected through = aborted
ws_end_of returned through = finished
ws_end_of out_of_fuel through = finished
ws_end_of o (at_error e) = met e
ws_end_of o (crashed e) = proxy_error e

abbrev as_ws : Outcome → Emitter × LoopEnd → Emitter × WsEnd
as_ws o (s, e) = (s, ws_end_of o e)

module _ (job : Job) where
  ws_resume_lem :
      (o : Outcome) (rest : Emitter → Emitter × LoopEnd) (ws_rest : Emitter → Emitter × WsEnd)
      (s : Emitter) (u : Try (Option Fields))
      → ((t : Emitter) → ws_rest t ≡ as_ws o (rest t))
      → ws_resume (setup job) ws_rest s u ≡ as_ws o (resume (setup job) rest s u)
  ws_resume_lem o rest ws_rest s (raised e) h = refl
  ws_resume_lem o rest ws_rest s (done u) h = h (record s { usage = u })

  ws_loop_lem :
      (o : Outcome) (ws : List Wake) (ys : List Yield) (s : Emitter)
      → IsQuiet ws
      → length ys < readiness ws
      → ws_loop (setup job) ws (pump ys o) s ≡ as_ws o (send_yields (setup job) ys s)
  unfolding ws_loop send_yields pump
  ws_loop_lem o [] ys s q h = absurd (omega arith)
  ws_loop_lem o (wake inc false ∷ ws) ys s q h = rw q.0 (ws_loop_lem o ws ys s q.1 h)
  ws_loop_lem disconnected (wake inc true ∷ ws) [] s q h = rw q.0 refl
  ws_loop_lem returned (wake inc true ∷ ws) [] s q h = rw q.0 refl
  ws_loop_lem out_of_fuel (wake inc true ∷ ws) [] s q h = rw q.0 refl
  ws_loop_lem o (wake inc true ∷ ws) (from r (failed e) ∷ ys) s q h = rw q.0 refl
  ws_loop_lem o (wake inc true ∷ ws) (from_none (failed e) ∷ ys) s q h = rw q.0 refl
  ws_loop_lem o (wake inc true ∷ ws) (from r (msg m) ∷ ys) s q h =
      rw (q.0, ws_send_message-send_message (setup job) m (with_account s r))
        (ws_resume_lem o (send_yields (setup job) ys) (ws_loop (setup job) ws (pump ys o)) _ _
          (λ t. ws_loop_lem o ws ys t q.1 (omega arith)))
  ws_loop_lem o (wake inc true ∷ ws) (from_none (msg m) ∷ ys) s q h =
      rw (q.0, ws_send_message-send_message (setup job) m s)
        (ws_resume_lem o (send_yields (setup job) ys) (ws_loop (setup job) ws (pump ys o)) _ _
          (λ t. ws_loop_lem o ws ys t q.1 (omega arith)))

  -- What a crash of the loop comes to on the socket, and what else there is.
  abbrev pub or_broken : LoopEnd → Emitter → Streamed → Streamed
  or_broken (crashed e) s other = ws_broken job e (close_open (setup job) s)
  or_broken through s other = other
  or_broken (at_error e) s other = other

  ws_end_lem :
      (o : Outcome) (s : Emitter) (e : LoopEnd)
      → ws_end job (s, ws_end_of o e) ≡ or_broken e s (end_stream job o (s, e))
  unfolding ws_end ws_failure ws_response end_stream send_failure send_response
  ws_end_lem o s (crashed e) = ap (ws_broken job e) (ws_close_open-close_open (setup job) s)
  ws_end_lem disconnected s (at_error e) = rw (ws_close_open-close_open (setup job) s) refl
  ws_end_lem returned s (at_error e) = rw (ws_close_open-close_open (setup job) s) refl
  ws_end_lem out_of_fuel s (at_error e) = rw (ws_close_open-close_open (setup job) s) refl
  ws_end_lem disconnected s through = refl
  ws_end_lem returned s through = rw (ws_close_open-close_open (setup job) s) refl
  ws_end_lem out_of_fuel s through = rw (ws_close_open-close_open (setup job) s) refl

  -- Whenever the loop wakes up, and whatever messages of the client come in between: if the client does
  -- not leave and the queue is ready more often than the driver yields, then the WebSocket carries the
  -- frames of the event stream of these yields, and the same rows and the same response are stored;
  -- but where the loop over the yields raises an exception, the socket closes the open item and tells
  -- the exception as a failure with a row.
  pub ws_stream-sse :
      (ws : List Wake) (ys : List Yield) (o : Outcome)
      → IsQuiet ws
      → length ys < readiness ws
      → ws_stream job ws ys o
        ≡ or_broken
            (send_yields (setup job) ys (opening job)).1
            (send_yields (setup job) ys (opening job)).0
            (sse job ys o)
  unfolding ws_stream sse
  ws_stream-sse ws ys o q h =
      let r = send_yields (setup job) ys (opening job) in
      ap (ws_end job) (ws_loop_lem o ws ys (opening job) q h) ∙ ws_end_lem o r.0 r.1
