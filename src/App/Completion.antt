-- ===== src/App/Completion.antt =====
-- Collected answers of the chat endpoint in devin_proxy/app.py (`_collect`): the driver's yields and its
-- outcome are what an answer is made of.
use devin_proxy.Prelude.{
  ℕ, ◌+◌, Text, codes, Option, none, some, List, [], ◌∷◌, ◌++◌, map, is_empty, nat_beq,
  if◌then◌else◌, text_beq, not, ◌&&◌,
}
use devin_proxy.Data.{
  ChatResponse, msg, failed, Fields, num, obj, field, end, get, Try, done, raised,
}
use devin_proxy.Upstream.Usage.{add_usage, count_at}
use devin_proxy.App.ToolAgg.{Call, ToolAgg, feed, empty, call_of}
use devin_proxy.App.ToolAgg.Deltas.{feed_all}
use devin_proxy.App.Driver.Attempt.{Yield, from, from_none}
use devin_proxy.App.Driver.Loop.{Outcome, returned, disconnected, out_of_fuel}
use devin_proxy.App.Ends.{LoopEnd, through, at_error, crashed, Row, status_of, failed_row, ok_row}

abbrev pub stop : Text
stop = codes "stop"

-- `STOP_REASONS.get(n, "stop")`
unfoldable pub stop_reason_text : ℕ → Text
stop_reason_text n =
    if nat_beq n 10
    then codes "tool_calls"
    else if nat_beq n 11
    then codes "content_filter"
    else if nat_beq n 1
    then codes "length"
    else if nat_beq n 3
    then codes "length"
    else stop

abbrev pub finish_with : Text → ℕ → Text
finish_with old n = if nat_beq n 0 then old else stop_reason_text n

-- A finish that is a plain stop becomes `tool_calls` if there are calls.
abbrev pub final_finish : ToolAgg → Text → Text
final_finish agg finish =
    if not (is_empty agg.order) && text_beq finish stop then codes "tool_calls" else finish

-- `oai_usage`
unfoldable pub oai_usage : Fields → Fields
unfolding get
oai_usage u =
    let cached = count_at (codes "cached_tokens") u in
    let inp = count_at (codes "prompt_tokens") u + cached in
    let out = count_at (codes "completion_tokens") u in
    field (codes "prompt_tokens") (num inp) (
      field (codes "completion_tokens") (num out) (
        field (codes "total_tokens") (num (inp + out)) (
          if nat_beq cached 0
          then end
          else field (codes "prompt_tokens_details")
              (obj (field (codes "cached_tokens") (num cached) end)) end)))

abbrev pub id_with : Text → Text → Text
id_with old [] = old
id_with old (c ∷ new) = c ∷ new

-- The variables of `_collect`.
pub record Collected : Type 0 where
  pub rid : Text
  pub texts : Text
  pub think : Text
  pub agg : ToolAgg
  pub finish : Text
  pub usage : Option Fields
  pub account : Option ℕ

-- What `_collect` returns: the message's content (`none` where it is empty), its reasoning and its calls,
-- the finish reason and the usage.
pub record Completion : Type 0 where
  pub rid : Text
  pub content : Option Text
  pub reasoning : Option Text
  pub calls : List Call
  pub finish : Text
  pub usage : Option Fields

-- The answer, or an exception: an HTTP status with its text, or what the loop raised.
pub data Answer : Type 0 where
  answered : Completion → Answer
  http_exception : ℕ → Text → Answer
  broke : Text → Answer

abbrev pub unless_nil : Text → Option Text
unless_nil [] = none
unless_nil (c ∷ t) = some (c ∷ t)

-- `if usage: resp["usage"] = oai_usage(usage)`
abbrev pub shown_usage : Option Fields → Option Fields
shown_usage none = none
shown_usage (some end) = none
shown_usage (some (field k v fs)) = some (oai_usage (field k v fs))

abbrev pub completion_of : Collected → Completion
completion_of c = record {
  rid = c.rid;
  content = unless_nil c.texts;
  reasoning = unless_nil c.think;
  calls = map (call_of c.agg) c.agg.order;
  finish = final_finish c.agg c.finish;
  usage = shown_usage c.usage;
}

unfoldable pub collect_message : ChatResponse → Collected → Collected
unfolding feed stop_reason_text
collect_message m c = record c {
  rid = id_with c.rid m.message_id;
  texts = c.texts ++ m.delta_text;
  think = c.think ++ m.delta_thinking;
  agg = feed_all c.agg m.delta_tool_calls;
  finish = finish_with c.finish m.stop_reason;
}

-- `str.lower` is a parameter.
module _ (lower : Text → Text) where
  abbrev pub go_on :
      (Collected → Collected × LoopEnd) → Collected → Try (Option Fields) → Collected × LoopEnd
  go_on rest c (raised e) = (c, crashed e)
  go_on rest c (done u) = rest (record c { usage = u })

  -- The loop over the driver's yields.
  unfoldable pub collect_yields : List Yield → Collected → Collected × LoopEnd
  unfolding collect_message add_usage
  collect_yields [] c = (c, through)
  collect_yields (from r (failed e) ∷ ys) c = (record c { account = some r }, at_error e)
  collect_yields (from_none (failed e) ∷ ys) c = (c, at_error e)
  collect_yields (from r (msg m) ∷ ys) c =
      let c' = collect_message m (record c { account = some r }) in
      go_on (collect_yields ys) c' (add_usage lower c'.usage m)
  collect_yields (from_none (msg m) ∷ ys) c =
      let c' = collect_message m c in go_on (collect_yields ys) c' (add_usage lower c'.usage m)

-- `_collect` behind its loop, with the rows that it writes.
unfoldable pub answer_of : Outcome → Collected × LoopEnd → Answer × List Row
unfolding oai_usage call_of
answer_of o (c, crashed e) = (broke e, [])
answer_of o (c, at_error e) =
    (http_exception (status_of e) e.message, failed_row e c.usage c.account ∷ [])
answer_of disconnected (c, through) = (broke (codes "ClientDisconnected"), [])
answer_of returned (c, through) = (answered (completion_of c), ok_row c.usage c.account ∷ [])
answer_of out_of_fuel (c, through) = (answered (completion_of c), ok_row c.usage c.account ∷ [])

abbrev pub new_collected : Text → Collected
new_collected rid = record {
  rid = rid;
  texts = [];
  think = [];
  agg = empty;
  finish = stop;
  usage = none;
  account = none;
}

-- `_collect`; `rid` is the id that is drawn for an answer without one.
unfoldable pub collect : (Text → Text) → Text → List Yield → Outcome → Answer × List Row
unfolding collect_yields answer_of
collect lower rid ys o = answer_of o (collect_yields lower ys (new_collected rid))
