-- ===== src/Responses/Stream.antt =====
-- `_sse` of devin_proxy/responses.py: the events of a streamed response. The emitter's variables are
-- a record; the generator's values are the frames that it has sent.
pub mod Protocol
pub mod Followed
pub mod Accepted
use devin_proxy.Prelude.{
  ℕ, zero, suc, Text, Bool, true, false, not, ◌&&◌, ◌||◌, Option, none, some, List, [], ◌∷◌, ◌++◌,
  is_empty, elem, text_eq, text_beq, lookup, if◌then◌else◌, codes,
}
use devin_proxy.Data.{
  ChatToolCall, ChatResponse, ErrDict, Event, msg, failed, Json, Fields, null, Try, done, raised,
  kind_text,
}
use devin_proxy.Upstream.Usage.{add_usage}
use devin_proxy.App.ToolAgg.{Call, ToolAgg, Fed, feed, empty}
use devin_proxy.App.Ends.{LoopEnd, through, at_error, crashed}
use devin_proxy.App.Driver.Attempt.{Yield, from, from_none}
use devin_proxy.App.Driver.Loop.{Outcome, returned, disconnected, out_of_fuel}
use devin_proxy.Responses.Output.{
  Item, reasoning, message, function_call, custom_call, Ids, completed, unwrap_input,
}

-- The events by their types, with the values that vary: the item's id, the output index, a text.
pub data Sse : Type 0 where
  response_created response_in_progress response_completed response_failed : Fields → Sse
  item_added item_done : ℕ → Item → Sse
  summary_added text_added : Text → ℕ → Sse
  summary_delta summary_text_done summary_part_done : Text → ℕ → Text → Sse
  text_delta text_done text_part_done : Text → ℕ → Text → Sse
  call_delta call_done : Bool → Text → ℕ → Text → Sse
  error_event : Text → Text → Sse

-- A frame of the stream: a numbered event, or the line that ends the stream.
pub data Frame : Type 0 where
  framed : ℕ → Sse → Frame
  done_line : Frame

pub data Kind : Type 0 where
  is_reasoning is_message is_call : Kind

-- `fc_open`
pub record OpenCall : Type 0 where
  pub id : Text
  pub call_id : Text
  pub name : Text
  pub custom : Bool

-- The variables of `_sse`. `opened` is `out_idx + 1`, `drawn` the number of the ids drawn for calls,
-- `account` the object of the account that answers.
pub record Emitter : Type 0 where
  pub seq : ℕ
  pub sent : List Frame
  pub opened : ℕ
  pub open_kind : Option Kind
  pub fc_open : Option OpenCall
  pub drawn : ℕ
  pub fc_items : List Item
  pub agg : ToolAgg
  pub text : Text
  pub think : Text
  pub usage : Option Fields
  pub account : Option ℕ

abbrev pub start : Emitter
start = record {
  seq = 0;
  sent = [];
  opened = 0;
  open_kind = none;
  fc_open = none;
  drawn = 0;
  fc_items = [];
  agg = empty;
  text = [];
  think = [];
  usage = none;
  account = none;
}

-- `yield em.ev(…)`
abbrev pub emit : Emitter → Sse → Emitter
emit s e = record s { seq = suc s.seq; sent = s.sent ++ framed (suc s.seq) e ∷ [] }

abbrev pub before : ℕ → ℕ
before zero = 0
before (suc n) = n

-- `out_idx`; nothing is sent under it before the first item
abbrev pub out_idx : Emitter → ℕ
out_idx s = before s.opened

abbrev pub in_progress : Text
in_progress = codes "in_progress"

-- A call's item when it is added.
abbrev pub added_item : OpenCall → Item
added_item o =
    if o.custom
    then custom_call o.id in_progress o.call_id o.name []
    else function_call o.id in_progress o.call_id o.name []

abbrev pub is_kind : Kind → Option Kind → Bool
is_kind is_reasoning (some is_reasoning) = true
is_kind is_message (some is_message) = true
is_kind is_call (some is_call) = true
is_kind k _ = false

abbrev pub is_open_for : Text → Option OpenCall → Bool
is_open_for call_id none = false
is_open_for call_id (some o) = text_beq o.call_id call_id

abbrev pub none_open : Option OpenCall → Bool
none_open none = true
none_open (some o) = false

abbrev pub with_account : Emitter → ℕ → Emitter
with_account s r = record s { account = some r }

-- What a stream is sent with: `json.loads`, `str.lower` and the draws of `_iid`, and the names of the
-- custom tools.
pub record Setup : Type 0 where
  pub loads : Text → Option Json
  pub lower : Text → Text
  pub ids : Ids
  pub custom : List Text

module _ (given : Setup) where
  abbrev pub rs_id : Text
  rs_id = given.ids (codes "rs") 0

  abbrev pub msg_id : Text
  msg_id = given.ids (codes "msg") 0

  -- The item of a call that is closed, and the text that its `done` event carries.
  abbrev pub closing_text : OpenCall → Call → Text
  closing_text o c = if o.custom then unwrap_input given.loads c.args else c.args

  abbrev pub closed_item : OpenCall → Call → Item
  closed_item o c =
      if o.custom
      then custom_call o.id completed o.call_id c.name (closing_text o c)
      else function_call o.id completed o.call_id c.name (closing_text o c)

  -- `agg.calls.get(fc_open["call_id"], …)`
  abbrev pub called : ToolAgg → OpenCall → Call
  called agg o = elim (lookup o.call_id agg.calls) [
    | none ↦ record { id = o.call_id; name = o.name; args = [] }
    | some c ↦ c
  ]

  -- `close_open`, by the kind that is open
  unfoldable pub close_kind : Option Kind → Option OpenCall → Emitter → Emitter
  unfolding unwrap_input lookup
  close_kind (some is_reasoning) o s =
      record (emit
        (emit (emit s (summary_text_done rs_id (out_idx s) s.think))
          (summary_part_done rs_id (out_idx s) s.think))
        (item_done (out_idx s) (reasoning rs_id (s.think ∷ []) []))) { open_kind = none }
  close_kind (some is_message) o s =
      record (emit
        (emit (emit s (text_done msg_id (out_idx s) s.text))
          (text_part_done msg_id (out_idx s) s.text))
        (item_done (out_idx s) (message msg_id completed (s.text ∷ [])))) { open_kind = none }
  close_kind (some is_call) (some o) s =
      let c = called s.agg o in
      record (emit (emit s (call_done o.custom o.id (out_idx s) (closing_text o c)))
        (item_done (out_idx s) (closed_item o c))) {
          open_kind = none;
          fc_items = s.fc_items ++ closed_item o c ∷ [];
        }
  close_kind (some is_call) none s = record s { open_kind = none }
  close_kind none o s = record s { open_kind = none }

  abbrev pub close_open : Emitter → Emitter
  close_open s = close_kind s.open_kind s.fc_open s

  unfoldable pub open_reasoning : Emitter → Emitter
  open_reasoning s =
      emit
        (emit (record s { opened = suc s.opened; open_kind = some is_reasoning })
          (item_added s.opened (reasoning rs_id [] [])))
        (summary_added rs_id s.opened)

  unfoldable pub open_message : Emitter → Emitter
  open_message s =
      emit
        (emit (record s { opened = suc s.opened; open_kind = some is_message })
          (item_added s.opened (message msg_id in_progress [])))
        (text_added msg_id s.opened)

  unfoldable pub open_fc : Call → Emitter → Emitter
  open_fc c s =
      let o : OpenCall = record {
        id = given.ids (codes "fc") s.drawn;
        call_id = c.id;
        name = c.name;
        custom = elem c.name given.custom;
      } in
      emit
        (record s {
          opened = suc s.opened;
          open_kind = some is_call;
          fc_open = some o;
          drawn = suc s.drawn;
        })
        (item_added s.opened (added_item o))

  -- A piece of reasoning, and a piece of text.
  unfoldable pub send_thinking : Text → Emitter → Emitter
  unfolding open_reasoning
  send_thinking d s =
      let s' = if is_kind is_reasoning s.open_kind then s else open_reasoning (close_open s) in
      emit (record s' { think = s'.think ++ d }) (summary_delta rs_id (out_idx s') d)

  unfoldable pub send_text : Text → Emitter → Emitter
  unfolding open_message
  send_text d s =
      let s' = if is_kind is_message s.open_kind then s else open_message (close_open s) in
      emit (record s' { text = s'.text ++ d }) (text_delta msg_id (out_idx s') d)

  -- A delta of a call's arguments goes to the call that was opened last.
  abbrev pub send_delta : Option Text → Option OpenCall → Emitter → Emitter
  send_delta (some (c ∷ d)) (some o) s = emit s (call_delta o.custom o.id (out_idx s) (c ∷ d))
  send_delta _ _ s = s

  abbrev pub wants_item : Fed → Emitter → Bool
  wants_item f s = f.new_name || (none_open s.fc_open && not (is_empty f.call.id))

  unfoldable pub send_fed : Fed → Emitter → Emitter
  unfolding open_fc
  send_fed f s =
      let s' =
        if wants_item f s && not (is_open_for f.call.id s.fc_open)
        then open_fc f.call (close_open s)
        else s in
      send_delta f.delta s'.fc_open s'

  unfoldable pub send_call : ChatToolCall → Emitter → Emitter
  unfolding feed send_fed
  send_call tc s =
      let (agg, fed) = feed s.agg tc in
      elim fed [ none ↦ record s { agg = agg } | some f ↦ send_fed f (record s { agg = agg }) ]

  unfoldable pub send_calls : List ChatToolCall → Emitter → Emitter
  unfolding send_call
  send_calls [] s = s
  send_calls (tc ∷ tcs) s = send_calls tcs (send_call tc s)

  abbrev pub unless_nil : (Text → Emitter → Emitter) → Text → Emitter → Emitter
  unless_nil f [] s = s
  unless_nil f (c ∷ t) s = f (c ∷ t) s

  -- What one message of the upstream makes the stream send.
  unfoldable pub send_message : ChatResponse → Emitter → Emitter
  unfolding send_thinking send_text send_calls
  send_message m s =
      send_calls m.delta_tool_calls
        (unless_nil send_text m.delta_text (unless_nil send_thinking m.delta_thinking s))

  -- Behind a message its usage is counted, and the loop goes on with `rest`.
  abbrev pub resume :
      (Emitter → Emitter × LoopEnd) → Emitter → Try (Option Fields) → Emitter × LoopEnd
  resume rest s (raised e) = (s, crashed e)
  resume rest s (done u) = rest (record s { usage = u })

  abbrev pub count_usage :
      (Emitter → Emitter × LoopEnd) → ChatResponse → Emitter → Emitter × LoopEnd
  count_usage rest m s = resume rest s (add_usage given.lower s.usage m)

  -- The loop over the driver's yields.
  unfoldable pub send_yields : List Yield → Emitter → Emitter × LoopEnd
  unfolding send_message add_usage
  send_yields [] s = (s, through)
  send_yields (from r (failed e) ∷ ys) s = (with_account s r, at_error e)
  send_yields (from_none (failed e) ∷ ys) s = (s, at_error e)
  send_yields (from r (msg m) ∷ ys) s =
      count_usage (send_yields ys) m (send_message m (with_account s r))
  send_yields (from_none (msg m) ∷ ys) s = count_usage (send_yields ys) m (send_message m s)
