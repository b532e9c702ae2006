-- ===== src/Upstream/Ending.antt =====
-- How the generator of `stream_chat` ends: a stream without the END_STREAM trailer is reported.
use devin_proxy.Prelude.{
  ℕ, zero, suc, ◌≡◌, refl, sym, subst, Bool, true, false, ◌||◌, none, some, List, [], ◌∷◌, ◌++◌,
  inl, inr, length, any, arith, Option-cases, if◌then◌else◌,
}
use devin_proxy.Data.{ErrDict, failed}
use devin_proxy.Upstream.Frames.{
  Bytes, Out, trailer, yielded, Reader, start, Envelope, split_frame, Progress, ◌>>=◌, extend,
  Codec, on_frame, drain, take_chunk, read_chunks, read_body, close,
}

abbrev pub is_error : Out → Bool
is_error (yielded (failed e)) = true
is_error _ = false

abbrev pub is_trailer : Out → Bool
is_trailer (trailer b) = true
is_trailer _ = false

any-append : (p : Out → Bool) (xs ys : List Out) → any p (xs ++ ys) ≡ any p xs || any p ys
any-append p [] ys = refl
any-append p (x ∷ xs) ys = ground (arith, any-append p xs ys)

-- A return inside the loop has yielded an error; otherwise `ended` says whether a trailer was seen.
abbrev IsHonest : Bool → Progress → Type 0
IsHonest before (outs, none) = any is_error outs ≡ true
IsHonest before (outs, some r) = r.ended ≡ before || any is_trailer outs

IsHonest-prefix :
    (before : Bool) (o : List Out) (p : Progress)
    → IsHonest (before || any is_trailer o) p
    → IsHonest before (o ++ p.0, p.1)
IsHonest-prefix before o (outs, none) h = ground (arith, any-append is_error o outs)
IsHonest-prefix before o (outs, some r) h = ground (arith, any-append is_trailer o outs)

IsHonest-bind :
    (before : Bool) (p : Progress) (f : Reader → Progress)
    → IsHonest before p
    → ((r : Reader) → IsHonest r.ended (f r))
    → IsHonest before (p >>= f)
IsHonest-bind before (outs, none) f h k = h
IsHonest-bind before (outs, some r) f h k =
    IsHonest-prefix before outs (f r) (subst (λ b. IsHonest b (f r)) h (k r))

close_end :
    (outs : List Out) (last : ErrDict) (ended : Bool)
    → ended ≡ any is_trailer outs
    → any is_error (if ended then outs else outs ++ yielded (failed last) ∷ []) ≡ false
    → any is_trailer (if ended then outs else outs ++ yielded (failed last) ∷ []) ≡ true
close_end outs last true h e = sym h
close_end outs last false h e =
    ground (arith, any-append is_error outs (yielded (failed last) ∷ []))

module _ (codec : Codec) where
  on_frame-IsHonest : (r : Reader) (e : Envelope) → IsHonest r.ended (on_frame codec r e)
  unfolding on_frame
  on_frame-IsHonest r e = ground arith

  drain-IsHonest : (f : ℕ) (r : Reader) → IsHonest r.ended (drain codec f r)
  unfolding drain
  drain-IsHonest zero r = ground arith
  drain-IsHonest (suc f) r = elim (Option-cases (split_frame r.pending)) [
    | inl e ↦ rw (e, drain) (ground arith)
    | inr (x, e) ↦
        rw (e, drain)
          (IsHonest-bind r.ended (on_frame codec r x) (drain codec f) (on_frame-IsHonest r x)
            (drain-IsHonest f))
  ]

  read_chunks-IsHonest : (cs : List Bytes) (r : Reader) → IsHonest r.ended (read_chunks codec r cs)
  unfolding read_chunks take_chunk
  read_chunks-IsHonest [] r = ground arith
  read_chunks-IsHonest (c ∷ cs) r =
      IsHonest-bind r.ended (take_chunk codec r c) (λ r'. read_chunks codec r' cs)
        (drain-IsHonest (length (r.pending ++ c)) (extend r c)) (read_chunks-IsHonest cs)

  close-error :
      (p : Progress)
      → IsHonest false p
      → any is_error (close p) ≡ false
      → any is_trailer (close p) ≡ true
  unfolding close
  close-error (outs, none) h e = cc
  close-error (outs, some r) h e = close_end outs _ r.ended h e

  -- If the generator yields no error for a body, however chunked, then it has met the END_STREAM
  -- trailer: a stream that breaks off never looks like a clean finish.
  pub read_body_clean :
      (chunks : List Bytes)
      → any is_error (read_body codec chunks) ≡ false
      → any is_trailer (read_body codec chunks) ≡ true
  unfolding read_body
  read_body_clean chunks =
      close-error (read_chunks codec start chunks) (read_chunks-IsHonest chunks start)
