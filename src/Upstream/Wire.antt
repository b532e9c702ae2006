-- ===== src/Upstream/Wire.antt =====
-- What one side frames the other side reads: `_connect_frame` against the read loop.
use devin_proxy.Prelude.{
  ℕ, zero, suc, ◌+◌, ◌/◌, ◌%◌, ◌<◌, ◌≤◌, ◌≡◌, refl, sym, ap, ◌∙◌, Bool, true, false, none, some,
  List, [], ◌∷◌, ◌++◌, length, flatten, All, arith, take-append, drop-append, length-append,
  append-nil,
}
use devin_proxy.Data.{done, ChatResponse, msg}
use devin_proxy.Upstream.Frames.{
  Bytes, to_bytes4, from_bytes4, connect_frame, Out, frame, trailer, yielded, Reader, start,
  split_frame, Progress, ◌>>=◌, extend, Codec, on_frame, drain, take_chunk, read_chunks, read_body,
  close,
}
use devin_proxy.Upstream.Chunks.{
  read_body-flatten, drain_step, drain_wait, drain_enough, split_frame-nil,
}

-- The four length bytes of the envelope.
pub from_bytes4-to_bytes4 :
    (n : ℕ)
    → n < 4294967296
    → from_bytes4 (n / 16777216) (n / 65536 % 256) (n / 256 % 256) (n % 256) ≡ n
unfolding from_bytes4
from_bytes4-to_bytes4 n h = omega arith

-- A frame with the given flags, as `_connect_frame` writes it with the flag COMPRESSED.
abbrev pub frame_with : ℕ → Bytes → Bytes
frame_with flags payload = flags ∷ to_bytes4 (length payload) ++ payload

split_frame-frame_with :
    (flags : ℕ) (payload rest : Bytes)
    → length payload < 4294967296
    → split_frame (frame_with flags payload ++ rest)
      ≡ some (record { flags = flags; payload = payload; rest = rest })
unfolding split_frame to_bytes4
split_frame-frame_with flags payload rest h =
    rw (from_bytes4-to_bytes4 (length payload) h) (
      ground
        (arith, length-append payload rest, take-append payload rest, drop-append payload rest))

split_frame-alone :
    (flags : ℕ) (payload : Bytes)
    → length payload < 4294967296
    → split_frame (frame_with flags payload)
      ≡ some (record { flags = flags; payload = payload; rest = [] })
split_frame-alone flags payload h =
    ap split_frame (sym (append-nil (frame_with flags payload)))
    ∙ split_frame-frame_with flags payload [] h

connect_frame-frame_with :
    (compress : Bytes → Bytes) (b : Bytes) → connect_frame compress b ≡ frame_with 1 (compress b)
unfolding connect_frame
connect_frame-frame_with compress b = refl

-- The loop's result when every byte is used up behind the trailer.
abbrev at_end : List Out → ℕ → Progress
at_end outs n = (outs, some (record { pending = []; ended = true; n_frames = n }))

module _ (codec : Codec) (compress : Bytes → Bytes) where
  open codec use {decompress, parse, trailer_error}

  -- A body: each message framed as `_connect_frame` does, then the trailer with both flags.
  abbrev pub wire : List (Bytes × ChatResponse) → Bytes → Bytes
  wire [] t = frame_with 3 (compress t)
  wire ((b, m) ∷ rest) t = connect_frame compress b ++ wire rest t

  -- What the generator should do with it.
  abbrev pub packets : List (Bytes × ChatResponse) → Bytes → List Out
  packets [] t = trailer t ∷ []
  packets ((b, m) ∷ rest) t = frame b ∷ yielded (msg m) ∷ packets rest t

  abbrev pub IsReadable : Bytes × ChatResponse → Type 0
  IsReadable (b, m) = (length (compress b) < 4294967296) × (parse b ≡ done m)

  module _ (inverse : (b : Bytes) → decompress (compress b) ≡ done b) where
    on_frame-message :
        (r : Reader) (b : Bytes) (m : ChatResponse) (rest : Bytes)
        → parse b ≡ done m
        → on_frame codec r (record { flags = 1; payload = compress b; rest = rest }) ≡ (
          frame b ∷ yielded (msg m) ∷ [],
          some (record r { pending = rest; n_frames = suc r.n_frames }),
        )
    unfolding on_frame
    on_frame-message r b m rest p = ground (arith, inverse b)

    on_frame-trailer :
        (r : Reader) (t rest : Bytes)
        → trailer_error t ≡ none
        → on_frame codec r (record { flags = 3; payload = compress t; rest = rest })
          ≡ (trailer t ∷ [], some (record r { pending = rest; ended = true }))
    unfolding on_frame
    on_frame-trailer r t rest p = ground (arith, inverse t)

    drain-wire :
        (ms : List (Bytes × ChatResponse)) (t : Bytes) (f : ℕ) (ended : Bool) (n : ℕ)
        → All IsReadable ms
        → length (compress t) < 4294967296
        → trailer_error t ≡ none
        → length ms ≤ f
        → drain codec (suc f) (record { pending = wire ms t; ended = ended; n_frames = n })
          ≡ (packets ms t, some (record { pending = []; ended = true; n_frames = n + length ms }))
    drain-wire [] t f ended n h fits e g =
        drain_step codec f _ _ (split_frame-alone 3 (compress t) fits)
        ∙ ap (λ p. p >>= drain codec f) (on_frame-trailer _ t [] e)
        ∙ ap (λ p. (trailer t ∷ p.0, p.1))
            (drain_wait codec f _ (split_frame-nil [] (omega arith)) ∙ ap (at_end []) (omega arith))
    drain-wire ((b, m) ∷ ms) t zero ended n h fits e g = absurd (omega arith)
    drain-wire ((b, m) ∷ ms) t (suc f) ended n h fits e g =
        rw (connect_frame-frame_with compress b) (
          drain_step codec (suc f) _ _ (split_frame-frame_with 1 (compress b) (wire ms t) h.0.0)
          ∙ ap (λ p. p >>= drain codec (suc f)) (on_frame-message _ b m (wire ms t) h.0.1)
          ∙ ap (λ p. (frame b ∷ yielded (msg m) ∷ p.0, p.1))
              (drain-wire ms t f ended (suc n) h.1 fits e (omega arith)
                ∙ ap (at_end (packets ms t)) (omega arith)))

    -- For every list of messages and every chunking of their wire form, the generator captures and
    -- yields exactly these messages in order and then the trailer, and no error.
    pub read_body-wire :
        (ms : List (Bytes × ChatResponse)) (t : Bytes) (chunks : List Bytes)
        → All IsReadable ms
        → length (compress t) < 4294967296
        → trailer_error t ≡ none
        → flatten chunks ≡ wire ms t
        → read_body codec chunks ≡ packets ms t
    read_body-wire ms t chunks h fits e whole =
        read_body-flatten codec chunks
        ∙ rw whole (
            let w = wire ms t in
            let r = extend start w in
            unfold read_body read_chunks take_chunk close in
            ap (λ p. close (p >>= λ r'. ([], some r')))
              (drain_enough codec (length w) (suc (length w + length ms)) r (omega arith)
                  (omega arith)
                ∙ drain-wire ms t (length w + length ms) false 0 h fits e (omega arith))
            ∙ append-nil (packets ms t))
