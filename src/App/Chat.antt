-- ===== src/App/Chat.antt =====
-- Streamed answers of the chat endpoint in devin_proxy/app.py (`_sse_stream`), which passes an answer on chunk by
-- chunk.
pub mod Pieces
pub mod Places
pub mod Calls
pub mod Agreement
pub mod Handler
use devin_proxy.Prelude.{
  ℕ, ◌+◌, Text, codes, Bool, true, false, Option, none, some, List, [], ◌∷◌, ◌++◌, map, is_empty,
  nat_beq, if◌then◌else◌, text_beq, not, ◌&&◌,
}
use devin_proxy.Data.{
  ChatToolCall, ChatResponse, ErrDict, kind_text, msg, failed, Fields, num, obj, field, end, get,
  Try, done, raised,
}
use devin_proxy.Upstream.Usage.{add_usage, count_at}
use devin_proxy.App.ToolAgg.{Call, ToolAgg, Fed, feed, empty, call_of}
use devin_proxy.App.ToolAgg.Deltas.{feed_all, delta_text}
use devin_proxy.App.Driver.Attempt.{Yield, from, from_none}
use devin_proxy.App.Driver.Loop.{Outcome, returned, disconnected, out_of_fuel}
use devin_proxy.App.Ends.{
  LoopEnd, through, at_error, crashed, Row, status_of, failed_row, ok_row, aborted_row,
}
use devin_proxy.App.Completion.{
  stop, finish_with, final_finish, oai_usage, id_with, unless_nil, shown_usage, stop_reason_text,
}

-- The delta of a chunk. A call's delta has its position, its id, its name if that is new, and a piece of
-- its arguments.
pub data Delta : Type 0 where
  role : Delta
  content : Text → Delta
  reasoning : Text → Delta
  call : ℕ → Text → Text → Text → Delta
  nothing : Delta

-- What the stream sends: a chunk with the answer's id, its delta and its finish reason, the usage, an
-- error object with its text and its code, and the line that ends the stream.
pub data Chunk : Type 0 where
  chunk : Text → Delta → Option Text → Chunk
  usage_chunk : Text → Fields → Chunk
  error_object : Text → Text → Chunk
  done_line : Chunk

-- The variables of `_sse_stream`.
pub record Stream : Type 0 where
  pub rid : Text
  pub sent : List Chunk
  pub started : Bool
  pub agg : ToolAgg
  pub finish : Text
  pub usage : Option Fields
  pub account : Option ℕ

abbrev pub send : Delta → Stream → Stream
send d s = record s { sent = s.sent ++ chunk s.rid d none ∷ [] }

-- The first chunk names the role.
unfoldable pub start_stream : Stream → Stream
start_stream s = if s.started then s else send role (record s { started = true })

abbrev pub send_content : Text → Stream → Stream
send_content [] s = s
send_content (c ∷ t) s = send (content (c ∷ t)) s

abbrev pub send_reasoning : Text → Stream → Stream
send_reasoning [] s = s
send_reasoning (c ∷ t) s = send (reasoning (c ∷ t)) s

abbrev pub send_fed : Option Fed → Stream → Stream
send_fed none s = s
send_fed (some f) s =
    send (call f.index f.call.id (if f.new_name then f.call.name else []) (delta_text f.delta)) s

unfoldable pub send_calls : List ChatToolCall → Stream → Stream
unfolding feed
send_calls [] s = s
send_calls (tc ∷ tcs) s =
    let (agg, fed) = feed s.agg tc in send_calls tcs (send_fed fed (record s { agg = agg }))

-- What one message of the upstream makes the stream send.
unfoldable pub send_message : ChatResponse → Stream → Stream
unfolding send_calls stop_reason_text
send_message m s =
    let s' = send_calls m.delta_tool_calls (
      send_reasoning m.delta_thinking
        (send_content m.delta_text (record s { rid = id_with s.rid m.message_id }))) in
    record s' { finish = finish_with s'.finish m.stop_reason }

-- `str.lower` is a parameter.
module _ (lower : Text → Text) where
  abbrev pub resume : (Stream → Stream × LoopEnd) → Stream → Try (Option Fields) → Stream × LoopEnd
  resume rest s (raised e) = (s, crashed e)
  resume rest s (done u) = rest (record s { usage = u })

  unfoldable pub send_yields : List Yield → Stream → Stream × LoopEnd
  unfolding start_stream send_message add_usage
  send_yields [] s = (s, through)
  send_yields (from r (failed e) ∷ ys) s =
      (start_stream (record s { account = some r }), at_error e)
  send_yields (from_none (failed e) ∷ ys) s = (start_stream s, at_error e)
  send_yields (from r (msg m) ∷ ys) s =
      let s' = send_message m (start_stream (record s { account = some r })) in
      resume (send_yields ys) s' (add_usage lower s'.usage m)
  send_yields (from_none (msg m) ∷ ys) s =
      let s' = send_message m (start_stream s) in
      resume (send_yields ys) s' (add_usage lower s'.usage m)

abbrev pub new_stream : Text → Stream
new_stream rid = record {
  rid = rid;
  sent = [];
  started = false;
  agg = empty;
  finish = stop;
  usage = none;
  account = none;
}

-- The end of a stream: the error object with its code, or the finish reason and, if it is asked for, the
-- usage.
unfoldable pub send_error : Text → Text → Stream → List Chunk
send_error text code s = s.sent ++ error_object text code ∷ done_line ∷ []

abbrev pub usage_chunks : Bool → Text → Option Fields → List Chunk
usage_chunks true rid (some u) = usage_chunk rid u ∷ []
usage_chunks _ rid _ = []

unfoldable pub send_finish : Bool → Stream → List Chunk
unfolding oai_usage
send_finish include_usage s =
    s.sent
    ++ chunk s.rid nothing (some (final_finish s.agg s.finish))
      ∷ (usage_chunks include_usage s.rid (shown_usage s.usage) ++ done_line ∷ [])

abbrev pub proxy_row : Text → Stream → Row
proxy_row e s = record {
  ok = false;
  status = 502;
  error = some e;
  usage = s.usage;
  account = s.account;
}

-- `_sse_stream` behind its loop: an exception is caught, and told as an error.
unfoldable pub end_stream : Bool → Outcome → Stream × LoopEnd → List Chunk × List Row
unfolding start_stream send_error send_finish
end_stream inc o (s, crashed e) =
    (send_error e (codes "proxy_error") (start_stream s), proxy_row e s ∷ [])
end_stream inc o (s, at_error e) =
    (send_error e.message (kind_text e.kind) (start_stream s), failed_row e s.usage s.account ∷ [])
end_stream inc disconnected (s, through) = (s.sent, aborted_row s.usage s.account ∷ [])
end_stream inc returned (s, through) =
    (send_finish inc (start_stream s), ok_row s.usage s.account ∷ [])
end_stream inc out_of_fuel (s, through) =
    (send_finish inc (start_stream s), ok_row s.usage s.account ∷ [])

-- `_sse_stream`
unfoldable pub sse_stream :
    (Text → Text) → Bool → Text → List Yield → Outcome → List Chunk × List Row
unfolding send_yields end_stream
sse_stream lower inc rid ys o = end_stream inc o (send_yields lower ys (new_stream rid))
