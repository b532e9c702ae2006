-- ===== src/Upstream/Frames.antt =====
-- The Connect envelope and the read loop of `stream_chat` (devin_proxy/upstream.py). Decompression,
-- protobuf parsing and the reading of a trailer are parameters. A byte is a number.
use Prim.Native.Nat.{bit_and}
use devin_proxy.Prelude.{
  ℕ, zero, suc, ◌+◌, ◌*◌, ◌/◌, ◌%◌, Text, codes, Bool, true, false, not, Option, none, some, List,
  [], ◌∷◌, ◌++◌, length, take, drop, ltb, nat_beq, if◌then◌else◌,
}
use devin_proxy.Data.{
  Try, done, raised, ErrDict, protocol_error, truncated, plain_error, ChatResponse, Event, msg,
  failed, decimal,
}

abbrev pub Bytes : Type 0
Bytes = List ℕ

-- `len(payload).to_bytes(4, "big")`
unfoldable pub to_bytes4 : ℕ → Bytes
to_bytes4 n = (n / 16777216) ∷ (n / 65536 % 256) ∷ (n / 256 % 256) ∷ (n % 256) ∷ []

-- `int.from_bytes(pending[1:5], "big")`
unfoldable pub from_bytes4 : ℕ → ℕ → ℕ → ℕ → ℕ
from_bytes4 a b c d = a * 16777216 + b * 65536 + c * 256 + d

-- `_connect_frame`
unfoldable pub connect_frame : (Bytes → Bytes) → Bytes → Bytes
unfolding to_bytes4
connect_frame compress body =
    let payload = compress body in 1 ∷ to_bytes4 (length payload) ++ payload

-- What the generator does, in order: a packet handed to `capture`, or an event yielded.
pub data Out : Type 0 where
  frame : Bytes → Out
  trailer : Bytes → Out
  http_body : Bytes → Out
  resp_headers : Bytes → Out
  yielded : Event → Out

-- The variables of the read loop.
pub record Reader : Type 0 where
  pub pending : Bytes
  pub ended : Bool
  pub n_frames : ℕ

abbrev pub start : Reader
start = record { pending = []; ended = false; n_frames = 0 }

pub record Envelope : Type 0 where
  pub flags : ℕ
  pub payload : Bytes
  pub rest : Bytes

-- The two tests of the inner loop: a whole header, and a whole payload.
unfoldable pub split_frame : Bytes → Option Envelope
unfolding from_bytes4
split_frame (f ∷ a ∷ b ∷ c ∷ d ∷ rest) =
    let ln = from_bytes4 a b c d in
    if ltb (length rest) ln
    then none
    else some (record { flags = f; payload = take ln rest; rest = drop ln rest })
split_frame _ = none

abbrev pub has_flag : ℕ → ℕ → Bool
has_flag flags bit = not (nat_beq (bit_and flags bit) 0)

abbrev pub bad_gzip : ℕ → Text → ErrDict
bad_gzip n e = plain_error protocol_error (codes "bad gzip frame #" ++ decimal n ++ codes ": " ++ e)

abbrev pub bad_protobuf : ℕ → Text → ErrDict
bad_protobuf n e =
    plain_error protocol_error (codes "bad protobuf frame #" ++ decimal n ++ codes ": " ++ e)

abbrev pub cut_off : ℕ → ℕ → ErrDict
cut_off n_frames left = plain_error truncated (
    codes "upstream closed the stream without an end-of-stream frame ("
    ++ decimal n_frames
    ++ codes " frames, "
    ++ decimal left
    ++ codes " trailing bytes)")

-- What was done so far, and the loop's variables, or `none` after a `return`.
abbrev pub Progress : Type 0
Progress = List Out × Option Reader

-- The rest of the loop, unless it has returned.
infixl 5 ◌>>=◌
abbrev pub ◌>>=◌ : Progress → (Reader → Progress) → Progress
(outs, none) >>= k = (outs, none)
(outs, some r) >>= k = (outs ++ (k r).0, (k r).1)

-- `pending += chunk`
abbrev pub extend : Reader → Bytes → Reader
extend r chunk = record r { pending = r.pending ++ chunk }

-- `if not ended: yield` behind the loop
unfoldable pub close : Progress → List Out
close (outs, none) = outs
close (outs, some r) =
    if r.ended then outs else outs ++ yielded (failed (cut_off r.n_frames (length r.pending))) ∷ []

-- The parameters: `gzip.decompress`, `ParseFromString`, and the error dict of a trailer that holds
-- an error.
pub record Codec : Type 0 where
  pub decompress : Bytes → Try Bytes
  pub parse : Bytes → Try ChatResponse
  pub trailer_error : Bytes → Option ErrDict

module _ (codec : Codec) where
  open codec use {decompress, parse, trailer_error}

  payload_of : Envelope → Try Bytes
  payload_of e = if has_flag e.flags 1 then decompress e.payload else done e.payload

  on_trailer : Reader → Bytes → Progress
  on_trailer r raw = elim (trailer_error raw) [
    | none ↦ (trailer raw ∷ [], some (record r { ended = true }))
    | some e ↦ (trailer raw ∷ yielded (failed e) ∷ [], some (record r { ended = true }))
  ]

  on_message : Reader → Bytes → Progress
  on_message r raw =
      let n = suc r.n_frames in
      elim (parse raw) [
        | done m ↦ (frame raw ∷ yielded (msg m) ∷ [], some (record r { n_frames = n }))
        | raised e ↦ (frame raw ∷ yielded (failed (bad_protobuf n e)) ∷ [], none)
      ]

  on_raw : Reader → ℕ → Try Bytes → Progress
  unfolding on_trailer on_message
  on_raw r flags (done raw) = if has_flag flags 2 then on_trailer r raw else on_message r raw
  on_raw r flags (raised e) = (yielded (failed (bad_gzip r.n_frames e)) ∷ [], none)

  -- One round of the inner loop, on a whole frame.
  unfoldable pub on_frame : Reader → Envelope → Progress
  unfolding payload_of on_raw
  on_frame r e = on_raw (record r { pending = e.rest }) e.flags (payload_of e)

  -- `while len(pending) >= 5`; the fuel bounds the rounds, and each round takes five bytes or more.
  unfoldable pub drain : ℕ → Reader → Progress
  drain zero r = ([], some r)
  drain (suc f) r = elim (split_frame r.pending) [
    | none ↦ ([], some r)
    | some e ↦ on_frame r e >>= λ r'. drain f r'
  ]

  -- one turn of `for chunk in resp.iter_bytes()`
  unfoldable pub take_chunk : Reader → Bytes → Progress
  take_chunk r chunk = drain (length (r.pending ++ chunk)) (extend r chunk)

  unfoldable pub read_chunks : Reader → List Bytes → Progress
  unfolding take_chunk
  read_chunks r [] = ([], some r)
  read_chunks r (c ∷ cs) = take_chunk r c >>= λ r'. read_chunks r' cs

  -- The generator over a 200 response whose body ends after the chunks.
  unfoldable pub read_body : List Bytes → List Out
  read_body chunks = close (read_chunks start chunks)
