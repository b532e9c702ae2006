-- ===== src/App/Chat/Agreement.antt =====
-- A streamed answer of devin_proxy/app.py, put together, is the collected answer.
use devin_proxy.Prelude.{
  Text, Bool, true, false, ◌≡◌, ◌≢◌, refl, ap, sym, ◌∙◌, if◌then◌else◌, Option, none, some, List,
  [], ◌∷◌, ◌++◌, map, All, append-nil, subst, lookup,
}
use devin_proxy.Data.{ChatResponse, Fields, Try, done, raised, msg, failed}
use devin_proxy.Upstream.Usage.{add_usage}
use devin_proxy.App.ToolAgg.{Call, ToolAgg, call_of}
use devin_proxy.App.ToolAgg.Deltas.{args_of, IsKeyed, empty-IsKeyed}
use devin_proxy.App.Ends.{LoopEnd, through, at_error, crashed}
use devin_proxy.App.Driver.Attempt.{Yield, from, from_none}
use devin_proxy.App.Driver.Loop.{Outcome, returned, disconnected, out_of_fuel}
use devin_proxy.App.Chat.{
  Delta, nothing, Chunk, done_line, Stream, start_stream, send_message, resume, send_yields,
  sse_stream, end_stream, new_stream, send_error, send_finish, usage_chunks,
}
use devin_proxy.App.Completion.{
  Collected, Answer, answered, http_exception, broke, unless_nil, go_on, collect_yields, answer_of,
  collect, completion_of, final_finish, shown_usage, collect_message,
}
use devin_proxy.App.Chat.Places.{
  name_in, usage_in, IsPlaced, YieldsNamed, All-append, usage_in-append,
}
use devin_proxy.App.Chat.Calls.{IsTold, IsTold-start_stream, IsTold-send_yields}
use devin_proxy.App.Chat.Pieces.{
  text_in, reasoning_in, args_in, gather, finish_in, error_in, gather-append, finish_in-append,
  error_in-append, gist, IsSound, gist-start_stream, gist-send_message, IsSound-start_stream,
  IsSound-send_message,
}

abbrev gist_of : Stream × LoopEnd → Collected × LoopEnd
gist_of (s, e) = (gist s, e)

module _ (lower : Text → Text) where
  resume-gist :
      (rest : Stream → Stream × LoopEnd) (rest' : Collected → Collected × LoopEnd) (s : Stream)
      (c : Collected) (m : ChatResponse)
      → gist s ≡ c
      → ((t : Stream) → gist_of (rest t) ≡ rest' (gist t))
      → gist_of (resume lower rest s (add_usage lower s.usage m))
        ≡ go_on lower rest' c (add_usage lower c.usage m)
  resume-gist rest rest' s c m e h =
      by_usage (add_usage lower s.usage m)
      ∙ ap (λ (x : Collected). go_on lower rest' x (add_usage lower x.usage m)) e
    where
      by_usage :
          (u : Try (Option Fields)) → gist_of (resume lower rest s u) ≡ go_on lower rest' (gist s) u
      by_usage (raised e) = refl
      by_usage (done u) = h (record s { usage = u })

  gist-send_yields :
      (ys : List Yield) (s : Stream)
      → gist_of (send_yields lower ys s) ≡ collect_yields lower ys (gist s)
  unfolding send_yields collect_yields
  gist-send_yields [] s = refl
  gist-send_yields (from r (failed e) ∷ ys) s =
      ap (λ c. (c, at_error e)) (gist-start_stream (record s { account = some r }))
  gist-send_yields (from_none (failed e) ∷ ys) s = ap (λ c. (c, at_error e)) (gist-start_stream s)
  gist-send_yields (from r (msg m) ∷ ys) s =
      let t = record s { account = some r } in
      resume-gist (send_yields lower ys) (collect_yields lower ys) (send_message m (start_stream t))
        _ m (gist-send_message m (start_stream t) ∙ ap (collect_message m) (gist-start_stream t))
        (gist-send_yields ys)
  gist-send_yields (from_none (msg m) ∷ ys) s =
      resume-gist (send_yields lower ys) (collect_yields lower ys) (send_message m (start_stream s))
        _ m (gist-send_message m (start_stream s) ∙ ap (collect_message m) (gist-start_stream s))
        (gist-send_yields ys)

  resume-IsSound :
      (rest : Stream → Stream × LoopEnd) (s : Stream) (u : Try (Option Fields))
      → ((t : Stream) → IsSound t → IsSound (rest t).0)
      → IsSound s
      → IsSound (resume lower rest s u).0
  resume-IsSound rest s (raised e) k h = h
  resume-IsSound rest s (done u) k h =
      k (record s { usage = u })
        (record { open_ended = h.open_ended; keyed = h.keyed; args = h.args })

  send_yields-IsSound :
      (ys : List Yield) (s : Stream) → IsSound s → IsSound (send_yields lower ys s).0
  unfolding send_yields
  send_yields-IsSound [] s h = h
  send_yields-IsSound (from r (failed e) ∷ ys) s h =
      IsSound-start_stream (record s { account = some r })
        (record { open_ended = h.open_ended; keyed = h.keyed; args = h.args })
  send_yields-IsSound (from_none (failed e) ∷ ys) s h = IsSound-start_stream s h
  send_yields-IsSound (from r (msg m) ∷ ys) s h =
      resume-IsSound (send_yields lower ys) _ _ (send_yields-IsSound ys) (
        IsSound-send_message m _ (
          IsSound-start_stream (record s { account = some r })
            (record { open_ended = h.open_ended; keyed = h.keyed; args = h.args })))
  send_yields-IsSound (from_none (msg m) ∷ ys) s h =
      resume-IsSound (send_yields lower ys) _ _ (send_yields-IsSound ys)
        (IsSound-send_message m _ (IsSound-start_stream s h))

-- What the chunks tell: the collected answer, its text, its reasoning, its id and finish reason, its
-- usage if that is asked for, and each call's name and arguments, under the call's position; or the
-- text of the exception that the collected answer ends by.
abbrev pub Tells : Bool → List Chunk → Answer → Type 0
Tells inc cs (answered k) =
    (unless_nil (gather text_in cs) ≡ k.content)
    × (unless_nil (gather reasoning_in cs) ≡ k.reasoning)
    × (finish_in cs ≡ some (k.rid, k.finish))
    × (usage_in cs ≡ (if inc then k.usage else none))
    × All (λ (c : Call). gather (args_in c.id) cs ≡ c.args) k.calls
    × All (λ (c : Call). gather (name_in c.id) cs ≡ c.name) k.calls
    × All (IsPlaced (map (λ (c : Call). c.id) k.calls)) cs
Tells inc cs (http_exception status e) = error_in cs ≡ some e
Tells inc cs (broke e) = error_in cs ≡ some e

ids-calls :
    (agg : ToolAgg) (cids : List Text)
    → IsKeyed agg
    → map (λ (c : Call). c.id) (map (call_of agg) cids) ≡ cids
ids-calls agg [] h = refl
ids-calls agg (cid ∷ cids) h = rw (h.own cid, ids-calls agg cids h) refl

usage_in-usage_chunks :
    (inc : Bool) (rid : Text) (u : Option Fields)
    → usage_in (usage_chunks inc rid u ++ done_line ∷ []) ≡ (if inc then u else none)
usage_in-usage_chunks true rid (some u) = refl
usage_in-usage_chunks true rid none = refl
usage_in-usage_chunks false rid u = refl

IsPlaced-usage_chunks :
    (order : List Text) (inc : Bool) (rid : Text) (u : Option Fields)
    → All (IsPlaced order) (usage_chunks inc rid u ++ done_line ∷ [])
IsPlaced-usage_chunks order true rid (some u) = (tt, (tt, tt))
IsPlaced-usage_chunks order true rid none = (tt, tt)
IsPlaced-usage_chunks order false rid u = (tt, tt)

All-calls :
    (P : Call → Type 0) (agg : ToolAgg) (cids : List Text)
    → ((cid : Text) → P (call_of agg cid))
    → All P (map (call_of agg) cids)
All-calls P agg [] h = tt
All-calls P agg (cid ∷ cids) h = (h cid, All-calls P agg cids h)

gather-usage :
    (f : Delta → Text) (inc : Bool) (rid : Text) (u : Option Fields)
    → gather f (usage_chunks inc rid u ++ done_line ∷ []) ≡ []
gather-usage f true rid (some u) = refl
gather-usage f true rid none = refl
gather-usage f false rid u = refl

gather-send_finish :
    (f : Delta → Text) (inc : Bool) (s : Stream)
    → f nothing ≡ []
    → gather f (send_finish inc s) ≡ gather f s.sent
unfolding send_finish
gather-send_finish f inc s e =
    gather-append f s.sent _
    ∙ ap (λ t. gather f s.sent ++ t) (rw e (gather-usage f inc s.rid (shown_usage s.usage)))
    ∙ append-nil (gather f s.sent)

send_finish-Tells :
    (names : Text → Text) (inc : Bool) (s : Stream)
    → IsSound s
    → IsTold names s.sent s.agg
    → Tells inc (send_finish inc (start_stream s)) (answered (completion_of (gist s)))
unfolding send_finish
send_finish-Tells names inc s h told =
    let t = start_stream s in
    let g = gist-start_stream s in
    let k = IsSound-start_stream s h in
    let w = IsTold-start_stream names s told in
    (
      ap unless_nil (gather-send_finish text_in inc t refl)
          ∙ ap (λ (c : Collected). unless_nil c.texts) g,
      ap unless_nil (gather-send_finish reasoning_in inc t refl)
          ∙ ap (λ (c : Collected). unless_nil c.think) g,
      finish_in-append t.sent _ k.open_ended.0
          ∙ ap (λ (c : Collected). some (c.rid, final_finish c.agg c.finish)) g,
      usage_in-append t.sent _ w.no_usage
          ∙ usage_in-usage_chunks inc t.rid (shown_usage t.usage)
          ∙ ap (λ (c : Collected). if inc then shown_usage c.usage else none) g,
      All-calls (λ c. gather (args_in c.id) (send_finish inc t) ≡ c.args) s.agg s.agg.order
          (λ cid.
            gather-send_finish (args_in (call_of s.agg cid).id) inc t refl
            ∙ k.args (call_of s.agg cid).id
            ∙ ap (λ (c : Collected). args_of c.agg (call_of s.agg cid).id) g
            ∙ ap (args_of s.agg) (h.keyed.own cid)),
      All-calls (λ c. gather (name_in c.id) (send_finish inc t) ≡ c.name) s.agg s.agg.order
          (λ cid.
            gather-send_finish (name_in (call_of s.agg cid).id) inc t refl
            ∙ w.named (call_of s.agg cid).id
            ∙ ap (λ (c : Collected). (call_of c.agg (call_of s.agg cid).id).name) g
            ∙ ap (λ c. (call_of s.agg c).name) (h.keyed.own cid)),
      subst (λ l. All (IsPlaced l) (send_finish inc t))
          (ap (λ (c : Collected). c.agg.order) g ∙ sym (ids-calls s.agg s.agg.order h.keyed))
          (All-append (IsPlaced t.agg.order) t.sent _ w.placed
            (tt, IsPlaced-usage_chunks t.agg.order inc t.rid (shown_usage t.usage))),
    )

send_error-Tells :
    (e code : Text) (s : Stream)
    → IsSound s
    → error_in (send_error e code (start_stream s)) ≡ some e
unfolding send_error
send_error-Tells e code s h =
    error_in-append (start_stream s).sent _ (IsSound-start_stream s h).open_ended.1

end_stream-Tells :
    (names : Text → Text) (inc : Bool) (o : Outcome) (s : Stream) (e : LoopEnd)
    → o ≢ disconnected
    → IsSound s
    → IsTold names s.sent s.agg
    → Tells inc (end_stream inc o (s, e)).0 (answer_of o (gist s, e)).0
unfolding end_stream answer_of
end_stream-Tells names inc returned s (at_error e) n h w = send_error-Tells e.message _ s h
end_stream-Tells names inc out_of_fuel s (at_error e) n h w = send_error-Tells e.message _ s h
end_stream-Tells names inc returned s (crashed e) n h w = send_error-Tells e _ s h
end_stream-Tells names inc out_of_fuel s (crashed e) n h w = send_error-Tells e _ s h
end_stream-Tells names inc returned s through n h w = send_finish-Tells names inc s h w
end_stream-Tells names inc out_of_fuel s through n h w = send_finish-Tells names inc s h w
end_stream-Tells names inc disconnected s e n h w = absurd (n refl)

new_stream-IsTold :
    (names : Text → Text) (rid : Text) → IsTold names (new_stream rid).sent (new_stream rid).agg
new_stream-IsTold names rid = record {
  listed = λ c x e. absurd (nothing_found {x = x} (unfold lookup in e));
  named = λ c. unfold call_of lookup in refl;
  usual = λ c. unfold call_of lookup in refl;
  placed = tt;
  no_usage = refl;
  keyed = empty-IsKeyed;
}
  where
    nothing_found : {x : Call} → none ≡ some x → ⊥
    nothing_found h = cc

new_stream-IsSound : (rid : Text) → IsSound (new_stream rid)
new_stream-IsSound rid = record {
  open_ended = (refl, refl);
  keyed = empty-IsKeyed;
  args = λ c. unfold call_of lookup in refl;
}

-- For the same yields of a driver that is not cut off by the client, in which a delta that names a call
-- has the call's id and no id comes with two names (`names` gives the name of an id): the chunks of the
-- streamed answer, put together, are the collected answer. They have the same text, reasoning, id and
-- finish reason, the usage if it was asked for, for each call of the collected answer the same name and
-- arguments, and every chunk of a call has the position of that call in the collected answer. Where the
-- collected answer is an exception, the stream tells its text in an error object.
pub sse_stream-collect :
    (names lower : Text → Text) (inc : Bool) (rid : Text) (ys : List Yield) (o : Outcome)
    → o ≢ disconnected
    → YieldsNamed names ys
    → Tells inc (sse_stream lower inc rid ys o).0 (collect lower rid ys o).0
unfolding sse_stream collect
sse_stream-collect names lower inc rid ys o n q =
    let r = send_yields lower ys (new_stream rid) in
    subst (λ c. Tells inc (end_stream inc o r).0 (answer_of o c).0)
      (gist-send_yields lower ys (new_stream rid))
      (end_stream-Tells names inc o r.0 r.1 n
        (send_yields-IsSound lower ys (new_stream rid) (new_stream-IsSound rid))
        (IsTold-send_yields names lower ys (new_stream rid) q (new_stream-IsTold names rid)))
