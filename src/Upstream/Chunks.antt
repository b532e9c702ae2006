-- ===== src/Upstream/Chunks.antt =====
-- The read loop of `stream_chat` does not see where the network cuts the body into chunks.
use devin_proxy.Prelude.{
  ℕ, zero, suc, ◌+◌, ◌≤◌, ◌≡◌, refl, sym, ap, subst, ◌∙◌, ◌≡⟨◌⟩◌, ◌∎, none, some, List, [], ◌∷◌,
  ◌++◌, inl, inr, length, flatten, arith, append-nil, append_assoc, take_le-append, drop_le-append,
  length-drop, length-append, Option-cases,
}
use devin_proxy.Upstream.Frames.{
  Bytes, Out, Reader, start, Envelope, split_frame, from_bytes4, Progress, ◌>>=◌, extend, Codec,
  on_frame, drain, take_chunk, read_chunks, read_body, close,
}

bind_prefix :
    (o : List Out) (p : Progress) (g : Reader → Progress)
    → ((o ++ p.0, p.1) >>= g) ≡ (o ++ (p >>= g).0, (p >>= g).1)
bind_prefix o (outs, none) g = refl
bind_prefix o (outs, some r) g = ap (λ l. (l, (g r).1)) (append_assoc o outs (g r).0)

bind_assoc : (p : Progress) (f g : Reader → Progress) → (p >>= f >>= g) ≡ (p >>= λ r. f r >>= g)
bind_assoc (outs, none) f g = refl
bind_assoc (outs, some r) f g = bind_prefix outs (f r) g

-- Two continuations that agree where the first part leads.
bind_cong :
    (p : Progress) (f g : Reader → Progress)
    → ((o : List Out) (r : Reader) → p ≡ (o, some r) → f r ≡ g r)
    → (p >>= f) ≡ (p >>= g)
bind_cong (outs, none) f g h = refl
bind_cong (outs, some r) f g h = ap (λ q. (outs ++ q.0, q.1)) (h outs r refl)

-- What holds of the reader when the loop goes on.
abbrev Leaves : (Reader → Type 0) → Progress → Type 0
Leaves P (outs, none) = Unit
Leaves P (outs, some r) = P r

Leaves-prefix :
    (P : Reader → Type 0) (o : List Out) (p : Progress) → Leaves P p → Leaves P (o ++ p.0, p.1)
Leaves-prefix P o (outs, none) h = tt
Leaves-prefix P o (outs, some r) h = h

Leaves-bind :
    (P : Reader → Type 0) (p : Progress) (f : Reader → Progress)
    → ((o : List Out) (r : Reader) → p ≡ (o, some r) → Leaves P (f r))
    → Leaves P (p >>= f)
Leaves-bind P (outs, none) f h = tt
Leaves-bind P (outs, some r) f h = Leaves-prefix P outs (f r) (h outs r refl)

Leaves_at :
    (P : Reader → Type 0) (o : List Out) (r : Reader) {p : Progress}
    → p ≡ (o, some r)
    → Leaves P p
    → P r
Leaves_at P o r e h = subst (Leaves P) e h

-- No whole frame is left, and at most `n` bytes.
abbrev IsRest : ℕ → Reader → Type 0
IsRest n r = (split_frame r.pending ≡ none) × (length r.pending ≤ n)

-- More bytes behind a whole frame change nothing but the rest.
split_frame-append :
    (p q : Bytes) (e : Envelope)
    → split_frame p ≡ some e
    → split_frame (p ++ q) ≡ some (record e { rest = e.rest ++ q })
unfolding split_frame
split_frame-append (f ∷ a ∷ b ∷ c ∷ d ∷ rest) q e h = ground (
  arith,
  length-append rest q,
  take_le-append (from_bytes4 a b c d) rest q,
  drop_le-append (from_bytes4 a b c d) rest q,
)
split_frame-append p q e h = cc

split_frame-length :
    (p : Bytes) (e : Envelope) → split_frame p ≡ some e → length e.rest + 5 ≤ length p
unfolding split_frame
split_frame-length (f ∷ a ∷ b ∷ c ∷ d ∷ rest) e h =
    ground (arith, length-drop (from_bytes4 a b c d) rest)
split_frame-length p e h = cc

pub split_frame-nil : (p : Bytes) → length p ≤ 0 → split_frame p ≡ none
unfolding split_frame
split_frame-nil [] h = refl
split_frame-nil (x ∷ p) h = absurd (omega arith)

module _ (codec : Codec) where
  pending-on_frame :
      (r : Reader) (e : Envelope) (r' : Reader) (o : List Out)
      → on_frame codec r e ≡ (o, some r')
      → r'.pending ≡ e.rest
  unfolding on_frame
  pending-on_frame r e r' o h = ground arith

  on_frame-extend :
      (r : Reader) (e : Envelope) (q : Bytes)
      → on_frame codec (extend r q) (record e { rest = e.rest ++ q })
        ≡ (on_frame codec r e >>= λ r'. ([], some (extend r' q)))
  unfolding on_frame
  on_frame-extend r e q = ground arith

  pub drain_wait :
      (f : ℕ) (r : Reader) → split_frame r.pending ≡ none → drain codec f r ≡ ([], some r)
  unfolding drain
  drain_wait zero r h = refl
  drain_wait (suc f) r h = rw (h, drain)

  pub drain_step :
      (f : ℕ) (r : Reader) (e : Envelope)
      → split_frame r.pending ≡ some e
      → drain codec (suc f) r ≡ (on_frame codec r e >>= drain codec f)
  unfolding drain
  drain_step f r e h = rw (h, drain)

  -- The bytes left behind a frame are fewer.
  shrinks :
      (r : Reader) (e : Envelope) (o : List Out) (r' : Reader)
      → split_frame r.pending ≡ some e
      → on_frame codec r e ≡ (o, some r')
      → length r'.pending + 5 ≤ length r.pending
  shrinks r e o r' s p =
      omega (arith, ap length (pending-on_frame r e r' o p), split_frame-length r.pending e s)

  -- Fuel beyond the number of bytes at hand makes no difference.
  pub drain_enough :
      (f g : ℕ) (r : Reader)
      → length r.pending ≤ f
      → length r.pending ≤ g
      → drain codec f r ≡ drain codec g r
  drain_enough zero g r hf hg =
      let e = split_frame-nil r.pending hf in drain_wait 0 r e ∙ sym (drain_wait g r e)
  drain_enough (suc f) zero r hf hg =
      let e = split_frame-nil r.pending hg in drain_wait (suc f) r e ∙ sym (drain_wait 0 r e)
  drain_enough (suc f) (suc g) r hf hg = elim (Option-cases (split_frame r.pending)) [
    | inl e ↦ drain_wait (suc f) r e ∙ sym (drain_wait (suc g) r e)
    | inr (x, e) ↦
        drain_step f r x e
        ∙ bind_cong (on_frame codec r x) (drain codec f) (drain codec g) (λ o r' p.
          drain_enough f g r' (omega (arith, shrinks r x o r' e p))
            (omega (arith, shrinks r x o r' e p)))
        ∙ sym (drain_step g r x e)
  ]

  -- To drain with more bytes at hand is to drain, append them, and drain again.
  drain-extend :
      (f g : ℕ) (r : Reader) (q : Bytes)
      → length r.pending ≤ f
      → length (r.pending ++ q) ≤ g
      → drain codec g (extend r q) ≡ (drain codec f r >>= λ r'. drain codec g (extend r' q))
  drain-extend zero g r q hf hg = let e = drain_wait 0 r (split_frame-nil r.pending hf) in rw e refl
  drain-extend (suc f) zero r q hf hg =
      let e =
        drain_wait (suc f) r
          (split_frame-nil r.pending (omega (arith, length-append r.pending q))) in
      rw e refl
  drain-extend (suc f) (suc g) r q hf hg = elim (Option-cases (split_frame r.pending)) [
    | inl e ↦ rw (drain_wait (suc f) r e) refl
    | inr (x, e) ↦
        let fits : (o : List Out) (r' : Reader)
            → on_frame codec r x ≡ (o, some r')
            → length (r'.pending ++ q) ≤ g =
          λ o r' p.
            omega (
              arith,
              shrinks r x o r' e p,
              length-append r.pending q,
              length-append r'.pending q,
            ) in
        drain codec (suc g) (extend r q)
        ≡⟨ drain_step g (extend r q) _ (split_frame-append r.pending q x e) ⟩
          (on_frame codec (extend r q) (record x { rest = x.rest ++ q }) >>= drain codec g)
        ≡⟨ ap (λ p. p >>= drain codec g) (on_frame-extend r x q) ⟩
          (on_frame codec r x >>= (λ r'. ([], some (extend r' q))) >>= drain codec g)
        ≡⟨ bind_assoc (on_frame codec r x) (λ r'. ([], some (extend r' q))) (drain codec g) ⟩
          (on_frame codec r x >>= λ r'. drain codec g (extend r' q))
        ≡⟨ bind_cong (on_frame codec r x) _ _ (λ o r' p.
          drain_enough g (suc g) (extend r' q) (fits o r' p) (omega (arith, fits o r' p))
          ∙ drain-extend f (suc g) r' q (omega (arith, shrinks r x o r' e p))
              (omega (arith, fits o r' p))) ⟩
          (on_frame codec r x >>= λ r'.
          drain codec f r' >>= λ r''. drain codec (suc g) (extend r'' q))
        ≡⟨ sym (bind_assoc (on_frame codec r x) (drain codec f) _) ⟩
          (on_frame codec r x >>= drain codec f >>= λ r''. drain codec (suc g) (extend r'' q))
        ≡⟨ ap (λ p. p >>= λ r''. drain codec (suc g) (extend r'' q)) (sym (drain_step f r x e)) ⟩
          (drain codec (suc f) r >>= λ r''. drain codec (suc g) (extend r'' q)) ∎
  ]

  -- What `drain` leaves behind is no whole frame, and no more bytes than there were.
  drain-Leaves :
      (n f : ℕ) (r : Reader)
      → length r.pending ≤ f
      → length r.pending ≤ n
      → Leaves (IsRest n) (drain codec f r)
  drain-Leaves n zero r h m = let e = split_frame-nil r.pending h in rw (drain_wait 0 r e) (e, m)
  drain-Leaves n (suc f) r h m = elim (Option-cases (split_frame r.pending)) [
    | inl e ↦ rw (drain_wait (suc f) r e) (e, m)
    | inr (x, e) ↦ rw (drain_step f r x e) (
        Leaves-bind (IsRest n) (on_frame codec r x) (drain codec f) λ o r' p.
          drain-Leaves n f r' (omega (arith, shrinks r x o r' e p))
            (omega (arith, shrinks r x o r' e p)))
  ]

  take_chunk-append :
      (r : Reader) (c d : Bytes)
      → (take_chunk codec r c >>= λ r'. take_chunk codec r' d) ≡ take_chunk codec r (c ++ d)
  unfolding take_chunk
  take_chunk-append r c d =
      let n = length (r.pending ++ c) in
      let m = length ((r.pending ++ c) ++ d) in
      bind_cong (drain codec n (extend r c)) _ _ (λ o r' p.
        drain_enough (length (r'.pending ++ d)) m (extend r' d) (omega arith) (
          omega (
            arith,
            length-append r'.pending d,
            length-append (r.pending ++ c) d,
            (Leaves_at (IsRest n) o r' p
                (drain-Leaves n n (extend r c) (omega arith) (omega arith))).1,
          )))
      ∙ sym (drain-extend n m (extend r c) d (omega arith) (omega arith))
      ∙ ap (λ (l : Bytes). drain codec (length l) (record r { pending = l }))
          (append_assoc r.pending c d)

  take_chunk-nil :
      (r : Reader) → split_frame r.pending ≡ none → take_chunk codec r [] ≡ ([], some r)
  unfolding take_chunk
  take_chunk-nil r h =
      ap (λ (l : Bytes). drain codec (length l) (record r { pending = l })) (append-nil r.pending)
      ∙ drain_wait (length r.pending) r h

  read_chunks-flatten :
      (r : Reader) (cs : List Bytes)
      → split_frame r.pending ≡ none
      → read_chunks codec r cs ≡ take_chunk codec r (flatten cs)
  unfolding read_chunks
  read_chunks-flatten r [] h = sym (take_chunk-nil r h)
  read_chunks-flatten r (c ∷ cs) h =
      bind_cong (take_chunk codec r c) _ _ (λ o r' p. read_chunks-flatten r' cs (rest o r' p))
      ∙ take_chunk-append r c (flatten cs)
    where
      rest :
          (o : List Out) (r' : Reader)
          → take_chunk codec r c ≡ (o, some r')
          → split_frame r'.pending ≡ none
      rest o r' p =
          let n = length (r.pending ++ c) in
          (Leaves_at (IsRest n) o r' p
            (unfold take_chunk in drain-Leaves n n (extend r c) (omega arith) (omega arith))).0

  -- Whatever the chunks in which the network delivers a body, the generator captures and yields
  -- the same packets, messages and errors, in the same order, as for the body in one piece.
  pub read_body-flatten :
      (chunks : List Bytes) → read_body codec chunks ≡ read_body codec (flatten chunks ∷ [])
  unfolding read_body
  read_body-flatten chunks = ap close (
      read_chunks-flatten start chunks (split_frame-nil [] (omega arith))
      ∙ ap (take_chunk codec start) (sym (append-nil (flatten chunks)))
      ∙ sym (read_chunks-flatten start (flatten chunks ∷ []) (split_frame-nil [] (omega arith))))
