-- ===== src/Responses/Stream/Accepted.antt =====
-- The frames that `_sse` of devin_proxy/responses.py sends follow the protocol.
use devin_proxy.Prelude.{
  Text, Bool, true, false, ◌≡◌, refl, sym, ap, subst, Option, none, some, List, [], ◌∷◌, ◌++◌,
  text_eq, not, ◌&&◌, if◌then◌else◌,
}
use devin_proxy.Data.{ChatToolCall, ChatResponse, Fields, msg, failed, done, raised, Try}
use devin_proxy.App.ToolAgg.{Call, ToolAgg, Fed, feed}
use devin_proxy.App.Ends.{LoopEnd}
use devin_proxy.App.Driver.Attempt.{Yield, from, from_none}
use devin_proxy.Responses.Stream.{
  Setup, Kind, is_reasoning, is_message, is_call, OpenCall, Emitter, emit, is_kind, is_open_for,
  wants_item, close_open, open_reasoning, open_message, open_fc, send_thinking, send_text,
  send_delta, send_fed, send_call, send_calls, send_message, send_yields, unless_nil, rs_id, msg_id,
  with_account, resume, summary_delta, text_delta, out_idx,
}
use devin_proxy.Responses.Stream.Protocol.{IsOpen, reason, say, call}
use devin_proxy.Responses.Stream.Followed.{
  Run-emit, Known, Busy, is_kind→eq, phase_of, IsFollowed, open_reasoning-IsFollowed,
  open_message-IsFollowed, open_fc-IsFollowed,
}

module _ (given : Setup) where
  IsOpen-phase_of :
      (k : Option Kind) (o : OpenCall) → Busy k (some o) → IsOpen (phase_of given k (some o))
  IsOpen-phase_of (some is_reasoning) o b = IsOpen.open_reasoning
  IsOpen-phase_of (some is_message) o b = IsOpen.open_message
  IsOpen-phase_of (some is_call) o b = IsOpen.open_call
  IsOpen-phase_of none o b = absurd b

  thought-IsFollowed :
      (d : Text) (t : Emitter)
      → IsFollowed given t
      → t.open_kind ≡ some is_reasoning
      → IsFollowed given
          (emit (record t { think = t.think ++ d }) (summary_delta (rs_id given) (out_idx t) d))
  thought-IsFollowed d t h e = record {
    calls = h.calls;
    run = Run-emit h.run (reason (rs_id given) d (ap (λ k. phase_of given k t.fc_open) e));
    known = h.known;
    busy = h.busy;
  }

  said-IsFollowed :
      (d : Text) (t : Emitter)
      → IsFollowed given t
      → t.open_kind ≡ some is_message
      → IsFollowed given
          (emit (record t { text = t.text ++ d }) (text_delta (msg_id given) (out_idx t) d))
  said-IsFollowed d t h e = record {
    calls = h.calls;
    run = Run-emit h.run (say (msg_id given) d (ap (λ k. phase_of given k t.fc_open) e));
    known = h.known;
    busy = h.busy;
  }

  -- The item that a piece needs is open before it is sent.
  ensured_reasoning :
      (s : Emitter) (b : Bool)
      → is_kind is_reasoning s.open_kind ≡ b
      → IsFollowed given s
      → let t = if b then s else open_reasoning given (close_open given s) in
        IsFollowed given t × (t.open_kind ≡ some is_reasoning)
  unfolding open_reasoning
  ensured_reasoning s true e h = (h, is_kind→eq is_reasoning s.open_kind e)
  ensured_reasoning s false e h = (open_reasoning-IsFollowed given s h, refl)

  ensured_message :
      (s : Emitter) (b : Bool)
      → is_kind is_message s.open_kind ≡ b
      → IsFollowed given s
      → let t = if b then s else open_message given (close_open given s) in
        IsFollowed given t × (t.open_kind ≡ some is_message)
  unfolding open_message
  ensured_message s true e h = (h, is_kind→eq is_message s.open_kind e)
  ensured_message s false e h = (open_message-IsFollowed given s h, refl)

  send_thinking-IsFollowed :
      (d : Text) (s : Emitter) → IsFollowed given s → IsFollowed given (send_thinking given d s)
  unfolding send_thinking
  send_thinking-IsFollowed d s h =
      let (f, e) = ensured_reasoning s (is_kind is_reasoning s.open_kind) refl h in
      thought-IsFollowed d _ f e

  send_text-IsFollowed :
      (d : Text) (s : Emitter) → IsFollowed given s → IsFollowed given (send_text given d s)
  unfolding send_text
  send_text-IsFollowed d s h =
      let (f, e) = ensured_message s (is_kind is_message s.open_kind) refl h in
      said-IsFollowed d _ f e

  send_delta-IsFollowed :
      (d : Option Text) (o : Option OpenCall) (s : Emitter)
      → s.fc_open ≡ o
      → IsFollowed given s
      → IsFollowed given (send_delta given d o s)
  send_delta-IsFollowed (some (c ∷ d)) (some o) s e h = record {
    calls = h.calls;
    run = Run-emit h.run (
        call o.custom o.id (c ∷ d)
          (subst (λ x. IsOpen (phase_of given s.open_kind x)) (sym e)
            (IsOpen-phase_of s.open_kind o (subst (Busy s.open_kind) e h.busy)))
          (subst (λ x. Known x h.calls) e h.known));
    known = h.known;
    busy = h.busy;
  }
  send_delta-IsFollowed (some (c ∷ d)) none s e h = h
  send_delta-IsFollowed (some []) o s e h = h
  send_delta-IsFollowed none o s e h = h

  ensured_call :
      (c : Call) (s : Emitter) (b : Bool)
      → IsFollowed given s
      → IsFollowed given (if b then open_fc given c (close_open given s) else s)
  ensured_call c s true h = open_fc-IsFollowed given c s h
  ensured_call c s false h = h

  send_fed-IsFollowed :
      (f : Fed) (s : Emitter) → IsFollowed given s → IsFollowed given (send_fed given f s)
  unfolding send_fed
  send_fed-IsFollowed f s h =
      send_delta-IsFollowed f.delta _ _ refl
        (ensured_call f.call s (wants_item given f s && not (is_open_for f.call.id s.fc_open)) h)

  send_call-IsFollowed :
      (tc : ChatToolCall) (s : Emitter)
      → IsFollowed given s
      → IsFollowed given (send_call given tc s)
  unfolding send_call
  send_call-IsFollowed tc s h = by_fed (feed s.agg tc).0 (feed s.agg tc).1
    where
      by_fed :
          (agg : ToolAgg) (fed : Option Fed)
          → IsFollowed given (elim fed [
            | none ↦ record s { agg = agg }
            | some f ↦ send_fed given f (record s { agg = agg })
          ])
      by_fed agg none = record { calls = h.calls; run = h.run; known = h.known; busy = h.busy }
      by_fed agg (some f) =
          send_fed-IsFollowed f (record s { agg = agg })
            (record { calls = h.calls; run = h.run; known = h.known; busy = h.busy })

  send_calls-IsFollowed :
      (tcs : List ChatToolCall) (s : Emitter)
      → IsFollowed given s
      → IsFollowed given (send_calls given tcs s)
  unfolding send_calls
  send_calls-IsFollowed [] s h = h
  send_calls-IsFollowed (tc ∷ tcs) s h =
      send_calls-IsFollowed tcs (send_call given tc s) (send_call-IsFollowed tc s h)

  unless_nil-IsFollowed :
      (f : Text → Emitter → Emitter) (t : Text) (s : Emitter)
      → ((d : Text) (s : Emitter) → IsFollowed given s → IsFollowed given (f d s))
      → IsFollowed given s
      → IsFollowed given (unless_nil given f t s)
  unless_nil-IsFollowed f [] s k h = h
  unless_nil-IsFollowed f (c ∷ t) s k h = k (c ∷ t) s h

  send_message-IsFollowed :
      (m : ChatResponse) (s : Emitter)
      → IsFollowed given s
      → IsFollowed given (send_message given m s)
  unfolding send_message
  send_message-IsFollowed m s h = send_calls-IsFollowed m.delta_tool_calls _ (
      unless_nil-IsFollowed (send_text given) m.delta_text _ send_text-IsFollowed
        (unless_nil-IsFollowed (send_thinking given) m.delta_thinking s send_thinking-IsFollowed h))

  resume-IsFollowed :
      (rest : Emitter → Emitter × LoopEnd) (s : Emitter) (u : Try (Option Fields))
      → ((t : Emitter) → IsFollowed given t → IsFollowed given (rest t).0)
      → IsFollowed given s
      → IsFollowed given (resume given rest s u).0
  resume-IsFollowed rest s (raised e) k h = h
  resume-IsFollowed rest s (done u) k h =
      k (record s { usage = u })
        (record { calls = h.calls; run = h.run; known = h.known; busy = h.busy })

  pub send_yields-IsFollowed :
      (ys : List Yield) (s : Emitter)
      → IsFollowed given s
      → IsFollowed given (send_yields given ys s).0
  unfolding send_yields
  send_yields-IsFollowed [] s h = h
  send_yields-IsFollowed (from r (failed e) ∷ ys) s h = record {
    calls = h.calls;
    run = h.run;
    known = h.known;
    busy = h.busy;
  }
  send_yields-IsFollowed (from_none (failed e) ∷ ys) s h = h
  send_yields-IsFollowed (from r (msg m) ∷ ys) s h =
      let t = with_account s r in
      resume-IsFollowed (send_yields given ys) (send_message given m t) _
        (λ u g. send_yields-IsFollowed ys u g)
        (send_message-IsFollowed m t
          (record { calls = h.calls; run = h.run; known = h.known; busy = h.busy }))
  send_yields-IsFollowed (from_none (msg m) ∷ ys) s h =
      resume-IsFollowed (send_yields given ys) (send_message given m s) _
        (λ u g. send_yields-IsFollowed ys u g) (send_message-IsFollowed m s h)
