-- ===== src/Responses/WebSocket/Items.antt =====
-- The items of a response over a WebSocket: `close_open`, `open_reasoning`, `open_message`, `open_fc`
-- and what is sent for a message in `_ws_stream` of devin_proxy/responses.py, which has these apart
-- from those of `_sse`.
use devin_proxy.Prelude.{
  suc, Text, Bool, not, ◌&&◌, ◌||◌, Option, none, some, List, [], ◌∷◌, ◌++◌, is_empty, elem,
  text_eq, lookup, if◌then◌else◌, codes, ◌≡◌, refl, ap, ◌∙◌, Bool-cases, inl, inr,
}
use devin_proxy.Data.{ChatToolCall, ChatResponse}
use devin_proxy.App.ToolAgg.{Call, ToolAgg, Fed, feed}
use devin_proxy.Responses.Output.{reasoning, message, completed, unwrap_input}
use devin_proxy.Responses.Stream.{
  item_added, item_done, summary_added, text_added, summary_delta, summary_text_done,
  summary_part_done, text_delta, text_done, text_part_done, call_delta, call_done, Kind,
  is_reasoning, is_message, is_call, OpenCall, Emitter, emit, out_idx, in_progress, added_item,
  is_kind, is_open_for, none_open, Setup, rs_id, msg_id, closing_text, closed_item, called,
  close_kind, close_open, open_reasoning, open_message, open_fc, send_thinking, send_text,
  send_delta, send_fed, send_call, send_calls, unless_nil, send_message,
}

module _ (given : Setup) where
  -- `close_open`, by the kind that is open
  unfoldable pub ws_close_kind : Option Kind → Option OpenCall → Emitter → Emitter
  unfolding unwrap_input lookup
  ws_close_kind (some is_reasoning) o s =
      record (emit
        (emit (emit s (summary_text_done (rs_id given) (out_idx s) s.think))
          (summary_part_done (rs_id given) (out_idx s) s.think))
        (item_done (out_idx s) (reasoning (rs_id given) (s.think ∷ []) []))) { open_kind = none }
  ws_close_kind (some is_message) o s =
      record (emit
        (emit (emit s (text_done (msg_id given) (out_idx s) s.text))
          (text_part_done (msg_id given) (out_idx s) s.text))
        (item_done (out_idx s) (message (msg_id given) completed (s.text ∷ [])))) {
          open_kind = none;
        }
  ws_close_kind (some is_call) (some o) s =
      let c = (called given) s.agg o in
      record (emit (emit s (call_done o.custom o.id (out_idx s) ((closing_text given) o c)))
        (item_done (out_idx s) ((closed_item given) o c))) {
          open_kind = none;
          fc_items = s.fc_items ++ (closed_item given) o c ∷ [];
        }
  ws_close_kind (some is_call) none s = record s { open_kind = none }
  ws_close_kind none o s = record s { open_kind = none }

  abbrev pub ws_close_open : Emitter → Emitter
  ws_close_open s = ws_close_kind s.open_kind s.fc_open s

  unfoldable pub ws_open_reasoning : Emitter → Emitter
  ws_open_reasoning s =
      emit
        (emit (record s { opened = suc s.opened; open_kind = some is_reasoning })
          (item_added s.opened (reasoning (rs_id given) [] [])))
        (summary_added (rs_id given) s.opened)

  unfoldable pub ws_open_message : Emitter → Emitter
  ws_open_message s =
      emit
        (emit (record s { opened = suc s.opened; open_kind = some is_message })
          (item_added s.opened (message (msg_id given) in_progress [])))
        (text_added (msg_id given) s.opened)

  unfoldable pub ws_open_fc : Call → Emitter → Emitter
  ws_open_fc c s =
      let o : OpenCall = record {
        id = given.ids (codes "fc") s.drawn;
        call_id = c.id;
        name = c.name;
        custom = elem c.name given.custom;
      } in
      emit
        (record s {
          opened = suc s.opened;
          open_kind = some is_call;
          fc_open = some o;
          drawn = suc s.drawn;
        })
        (item_added s.opened (added_item o))

  -- A piece of reasoning, and a piece of text.
  unfoldable pub ws_send_thinking : Text → Emitter → Emitter
  unfolding ws_open_reasoning
  ws_send_thinking d s =
      let s' =
        if is_kind is_reasoning s.open_kind then s else ws_open_reasoning (ws_close_open s) in
      emit (record s' { think = s'.think ++ d }) (summary_delta (rs_id given) (out_idx s') d)

  unfoldable pub ws_send_text : Text → Emitter → Emitter
  unfolding ws_open_message
  ws_send_text d s =
      let s' = if is_kind is_message s.open_kind then s else ws_open_message (ws_close_open s) in
      emit (record s' { text = s'.text ++ d }) (text_delta (msg_id given) (out_idx s') d)

  -- A delta of a call's arguments goes to the call that was opened last.
  abbrev pub ws_send_delta : Option Text → Option OpenCall → Emitter → Emitter
  ws_send_delta (some (c ∷ d)) (some o) s = emit s (call_delta o.custom o.id (out_idx s) (c ∷ d))
  ws_send_delta _ _ s = s

  abbrev pub ws_wants_item : Fed → Emitter → Bool
  ws_wants_item f s = f.new_name || (none_open s.fc_open && not (is_empty f.call.id))

  unfoldable pub ws_send_fed : Fed → Emitter → Emitter
  unfolding ws_open_fc
  ws_send_fed f s =
      let s' =
        if ws_wants_item f s && not (is_open_for f.call.id s.fc_open)
        then ws_open_fc f.call (ws_close_open s)
        else s in
      ws_send_delta f.delta s'.fc_open s'

  unfoldable pub ws_send_call : ChatToolCall → Emitter → Emitter
  unfolding feed ws_send_fed
  ws_send_call tc s =
      let (agg, fed) = feed s.agg tc in
      elim fed [ none ↦ record s { agg = agg } | some f ↦ ws_send_fed f (record s { agg = agg }) ]

  unfoldable pub ws_send_calls : List ChatToolCall → Emitter → Emitter
  unfolding ws_send_call
  ws_send_calls [] s = s
  ws_send_calls (tc ∷ tcs) s = ws_send_calls tcs (ws_send_call tc s)

  -- What one message of the upstream makes the socket send.
  unfoldable pub ws_send_message : ChatResponse → Emitter → Emitter
  unfolding ws_send_thinking ws_send_text ws_send_calls
  ws_send_message m s = ws_send_calls m.delta_tool_calls (
      (unless_nil given) ws_send_text m.delta_text
        ((unless_nil given) ws_send_thinking m.delta_thinking s))

  ws_close_kind-close_kind :
      (k : Option Kind) (o : Option OpenCall) (s : Emitter)
      → ws_close_kind k o s ≡ close_kind given k o s
  unfolding ws_close_kind close_kind
  ws_close_kind-close_kind (some is_reasoning) o s = refl
  ws_close_kind-close_kind (some is_message) o s = refl
  ws_close_kind-close_kind (some is_call) (some o) s = refl
  ws_close_kind-close_kind (some is_call) none s = refl
  ws_close_kind-close_kind none o s = refl

  -- The socket closes an item as the event stream does.
  pub ws_close_open-close_open : (s : Emitter) → ws_close_open s ≡ close_open given s
  ws_close_open-close_open s = ws_close_kind-close_kind s.open_kind s.fc_open s

  ws_send_thinking-send_thinking :
      (d : Text) (s : Emitter) → ws_send_thinking d s ≡ send_thinking given d s
  unfolding ws_send_thinking send_thinking ws_open_reasoning open_reasoning
  ws_send_thinking-send_thinking d s = elim (Bool-cases (is_kind is_reasoning s.open_kind)) [
    | inl e ↦ rw e refl
    | inr e ↦ rw (e, ws_close_open-close_open s) refl
  ]

  ws_send_text-send_text : (d : Text) (s : Emitter) → ws_send_text d s ≡ send_text given d s
  unfolding ws_send_text send_text ws_open_message open_message
  ws_send_text-send_text d s = elim (Bool-cases (is_kind is_message s.open_kind)) [
    | inl e ↦ rw e refl
    | inr e ↦ rw (e, ws_close_open-close_open s) refl
  ]

  ws_send_delta-send_delta :
      (d : Option Text) (o : Option OpenCall) (s : Emitter)
      → ws_send_delta d o s ≡ send_delta given d o s
  ws_send_delta-send_delta none o s = refl
  ws_send_delta-send_delta (some []) o s = refl
  ws_send_delta-send_delta (some (c ∷ d)) none s = refl
  ws_send_delta-send_delta (some (c ∷ d)) (some o) s = refl

  ws_open_fc-open_fc : (c : Call) (s : Emitter) → ws_open_fc c s ≡ open_fc given c s
  unfolding ws_open_fc open_fc
  ws_open_fc-open_fc c s = refl

  ws_send_fed-send_fed : (f : Fed) (s : Emitter) → ws_send_fed f s ≡ send_fed given f s
  unfolding ws_send_fed send_fed
  ws_send_fed-send_fed f s =
      elim (Bool-cases (ws_wants_item f s && not (is_open_for f.call.id s.fc_open))) [
        | inr e ↦ rw e (ws_send_delta-send_delta f.delta s.fc_open s)
        | inl e ↦
            rw (e, ws_close_open-close_open s, ws_open_fc-open_fc f.call (close_open given s))
              (let t = open_fc given f.call (close_open given s) in
                ws_send_delta-send_delta f.delta t.fc_open t)
      ]

  ws_send_call-send_call :
      (tc : ChatToolCall) (s : Emitter) → ws_send_call tc s ≡ send_call given tc s
  unfolding ws_send_call send_call
  ws_send_call-send_call tc s = by_fed (feed s.agg tc).1
    where
      agg : ToolAgg
      agg = (feed s.agg tc).0

      by_fed :
          (f : Option Fed)
          → (elim f [
            | none ↦ record s { agg = agg }
            | some f ↦ ws_send_fed f (record s { agg = agg })
          ])
            ≡ (elim f [
              | none ↦ record s { agg = agg }
              | some f ↦ send_fed given f (record s { agg = agg })
            ])
      by_fed none = refl
      by_fed (some f) = ws_send_fed-send_fed f (record s { agg = agg })

  ws_send_calls-send_calls :
      (tcs : List ChatToolCall) (s : Emitter) → ws_send_calls tcs s ≡ send_calls given tcs s
  unfolding ws_send_calls send_calls
  ws_send_calls-send_calls [] s = refl
  ws_send_calls-send_calls (tc ∷ tcs) s =
      ap (ws_send_calls tcs) (ws_send_call-send_call tc s)
      ∙ ws_send_calls-send_calls tcs (send_call given tc s)

  unless_nil-cong :
      (f g : Text → Emitter → Emitter) (t : Text) (s : Emitter)
      → ((d : Text) (s : Emitter) → f d s ≡ g d s)
      → unless_nil given f t s ≡ unless_nil given g t s
  unless_nil-cong f g [] s h = refl
  unless_nil-cong f g (c ∷ t) s h = h (c ∷ t) s

  -- The socket sends for a message what the event stream does.
  pub ws_send_message-send_message :
      (m : ChatResponse) (s : Emitter) → ws_send_message m s ≡ send_message given m s
  unfolding ws_send_message send_message
  ws_send_message-send_message m s =
      ap (λ t. ws_send_calls m.delta_tool_calls (unless_nil given ws_send_text m.delta_text t))
        (unless_nil-cong ws_send_thinking (send_thinking given) m.delta_thinking s
          ws_send_thinking-send_thinking)
      ∙ ap (ws_send_calls m.delta_tool_calls) (
          unless_nil-cong ws_send_text (send_text given) m.delta_text
            (unless_nil given (send_thinking given) m.delta_thinking s) ws_send_text-send_text)
      ∙ ws_send_calls-send_calls m.delta_tool_calls _
