-- ===== src/Tests/Stream.antt =====
-- Inputs for the theorems about devin_proxy/upstream.py and about tool-call deltas.
use devin_proxy.Prelude.{
  Text, codes, true, ◌≡◌, refl, none, some, List, [], ◌∷◌, ◌++◌, any, arith, lookup, insert,
  starts_with, text_beq,
}
use devin_proxy.Data.{done, upstream_error, plain_error, ChatToolCall, ChatResponse, msg}
use devin_proxy.Upstream.Frames.{
  Bytes, Codec, trailer, frame, yielded, read_body, read_chunks, take_chunk, drain, on_frame,
  split_frame, close, connect_frame, to_bytes4,
}
use devin_proxy.Upstream.Chunks.{read_body-flatten}
use devin_proxy.Upstream.Ending.{is_trailer, read_body_clean}
use devin_proxy.Upstream.Wire.{packets, read_body-wire}
use devin_proxy.App.ToolAgg.{empty, feed, call_of}
use devin_proxy.App.ToolAgg.Deltas.{args_of, feed_all, sent_all, empty-IsKeyed, args_of-feed_all}

abbrev says : Text → ChatResponse
says t = record {
  message_id = codes "m";
  delta_text = t;
  delta_thinking = [];
  delta_tool_calls = [];
  stop_reason = 0;
  usage = [];
  info = none;
  elapsed = 0;
}

-- Nothing is compressed, a message is its text, and a trailer that is not empty is an error.
abbrev plain_codec : Codec
plain_codec = record {
  decompress = λ b. done b;
  parse = λ b. done (says b);
  trailer_error = λ b. elim b [ [] ↦ none | c ∷ r ↦ some (plain_error upstream_error (c ∷ r)) ];
}

-- One message, cut inside its header, and the trailer.
abbrev chunks : List Bytes
chunks = (1 ∷ 0 ∷ 0 ∷ []) ∷ (0 ∷ 2 ∷ 72 ∷ 105 ∷ 3 ∷ []) ∷ (0 ∷ 0 ∷ 0 ∷ 0 ∷ []) ∷ []

read_body_runs :
    read_body plain_codec chunks
    ≡ frame (72 ∷ 105 ∷ []) ∷ yielded (msg (says (72 ∷ 105 ∷ []))) ∷ trailer [] ∷ []
unfolding read_body read_chunks take_chunk drain on_frame split_frame close
read_body_runs = refl

read_body-flatten_example :
    read_body plain_codec chunks
    ≡ read_body plain_codec ((1 ∷ 0 ∷ 0 ∷ 0 ∷ 2 ∷ 72 ∷ 105 ∷ 3 ∷ 0 ∷ 0 ∷ 0 ∷ 0 ∷ []) ∷ [])
read_body-flatten_example = read_body-flatten plain_codec chunks

read_body_clean_example : any is_trailer (read_body plain_codec chunks) ≡ true
read_body_clean_example = read_body_clean plain_codec chunks (rw read_body_runs refl)

read_body-wire_example :
    read_body plain_codec chunks
    ≡ packets plain_codec (λ b. b) ((72 ∷ 105 ∷ [], says (72 ∷ 105 ∷ [])) ∷ []) []
unfolding connect_frame to_bytes4
read_body-wire_example =
    read_body-wire plain_codec (λ b. b) (λ b. refl) ((72 ∷ 105 ∷ [], says (72 ∷ 105 ∷ [])) ∷ []) []
      chunks ((omega arith, refl), tt) (omega arith) refl refl

abbrev deltas : List ChatToolCall
deltas =
    record { id = codes "a"; name = codes "f"; arguments = codes "{" }
    ∷ record { id = []; name = []; arguments = codes "{}" }
    ∷ []

args_of-feed_all_example :
    args_of (feed_all empty deltas) (codes "a")
    ≡ args_of empty (codes "a") ++ sent_all (codes "a") empty deltas
args_of-feed_all_example = args_of-feed_all deltas empty (codes "a") empty-IsKeyed

feed_all_runs : args_of (feed_all empty deltas) (codes "a") ≡ codes "{}"
unfolding feed call_of lookup insert starts_with text_beq
feed_all_runs = refl
