-- ===== src/App/Chat/Pieces.antt =====
-- The chunks that `_sse_stream` of devin_proxy/app.py sends for one message, put together.
use devin_proxy.Prelude.{
  Text, Bool, true, false, ◌≡◌, refl, ap, sym, ◌∙◌, Option, none, some, List, [], ◌∷◌, ◌++◌,
  text_beq, append-nil, append_assoc, if◌then◌else◌,
}
use devin_proxy.Data.{ChatToolCall, ChatResponse}
use devin_proxy.App.ToolAgg.{ToolAgg, Fed, feed}
use devin_proxy.App.ToolAgg.Deltas.{
  delta_text, feed_all, args_of, sent_for, IsKeyed, feed-IsKeyed, feed-sent,
}
use devin_proxy.App.Chat.{
  Delta, role, content, reasoning, call, Chunk, chunk, usage_chunk, error_object, done_line, Stream,
  send, start_stream, send_content, send_reasoning, send_fed, send_calls, send_message,
}
use devin_proxy.App.Completion.{Collected, collect_message, id_with, finish_with}

-- What a delta adds to the text, to the reasoning, and to the arguments of the call `c`.
abbrev pub text_in : Delta → Text
text_in (content t) = t
text_in _ = []

abbrev pub reasoning_in : Delta → Text
reasoning_in (reasoning t) = t
reasoning_in _ = []

abbrev pub args_in : Text → Delta → Text
args_in c (call i id name args) = if text_beq id c then args else []
args_in c _ = []

-- The pieces of all chunks, put together.
abbrev pub gather : (Delta → Text) → List Chunk → Text
gather f [] = []
gather f (chunk id d fin ∷ cs) = f d ++ gather f cs
gather f (_ ∷ cs) = gather f cs

-- The id and the finish reason of the chunk that ends a stream, and the text of its error object.
abbrev pub finish_in : List Chunk → Option (Text × Text)
finish_in [] = none
finish_in (chunk id d (some fin) ∷ cs) = some (id, fin)
finish_in (_ ∷ cs) = finish_in cs

abbrev pub error_in : List Chunk → Option Text
error_in [] = none
error_in (error_object e code ∷ cs) = some e
error_in (_ ∷ cs) = error_in cs

pub gather-append :
    (f : Delta → Text) (cs ds : List Chunk) → gather f (cs ++ ds) ≡ gather f cs ++ gather f ds
gather-append f [] ds = refl
gather-append f (chunk id d fin ∷ cs) ds =
    ap (λ t. f d ++ t) (gather-append f cs ds)
    ∙ sym (append_assoc (f d) (gather f cs) (gather f ds))
gather-append f (usage_chunk id u ∷ cs) ds = gather-append f cs ds
gather-append f (error_object e code ∷ cs) ds = gather-append f cs ds
gather-append f (done_line ∷ cs) ds = gather-append f cs ds

-- The chunks so far tell no end.
abbrev pub IsOpenEnded : List Chunk → Type 0
IsOpenEnded cs = (finish_in cs ≡ none) × (error_in cs ≡ none)

pub finish_in-append :
    (cs ds : List Chunk) → finish_in cs ≡ none → finish_in (cs ++ ds) ≡ finish_in ds
finish_in-append [] ds h = refl
finish_in-append (chunk id d none ∷ cs) ds h = finish_in-append cs ds h
finish_in-append (chunk id d (some fin) ∷ cs) ds h = cc
finish_in-append (usage_chunk id u ∷ cs) ds h = finish_in-append cs ds h
finish_in-append (error_object e code ∷ cs) ds h = finish_in-append cs ds h
finish_in-append (done_line ∷ cs) ds h = finish_in-append cs ds h

pub error_in-append : (cs ds : List Chunk) → error_in cs ≡ none → error_in (cs ++ ds) ≡ error_in ds
error_in-append [] ds h = refl
error_in-append (chunk id d fin ∷ cs) ds h = error_in-append cs ds h
error_in-append (usage_chunk id u ∷ cs) ds h = error_in-append cs ds h
error_in-append (error_object e code ∷ cs) ds h = cc
error_in-append (done_line ∷ cs) ds h = error_in-append cs ds h

-- What the two loops have in common: the chunks put together.
abbrev pub gist : Stream → Collected
gist s = record {
  rid = s.rid;
  texts = gather text_in s.sent;
  think = gather reasoning_in s.sent;
  agg = s.agg;
  finish = s.finish;
  usage = s.usage;
  account = s.account;
}

-- What holds of the chunks at every point of the loop.
pub record IsSound (s : Stream) : Type 0 where
  pub open_ended : IsOpenEnded s.sent
  pub keyed : IsKeyed s.agg
  pub args : (c : Text) → gather (args_in c) s.sent ≡ args_of s.agg c

gather-send :
    (f : Delta → Text) (d : Delta) (s : Stream) → gather f (send d s).sent ≡ gather f s.sent ++ f d
gather-send f d s =
    gather-append f s.sent (chunk s.rid d none ∷ [])
    ∙ ap (λ t. gather f s.sent ++ t) (append-nil (f d))

gist-send :
    (d : Delta) (s : Stream)
    → gist (send d s) ≡ record (gist s) {
      texts = (gist s).texts ++ text_in d;
      think = (gist s).think ++ reasoning_in d;
    }
gist-send d s =
    ap (λ t. record (gist s) { texts = t; think = gather reasoning_in (send d s).sent })
      (gather-send text_in d s)
    ∙ ap (λ t. record (gist s) { texts = (gist s).texts ++ text_in d; think = t })
        (gather-send reasoning_in d s)

-- A delta without text and without reasoning.
gist-silent :
    (d : Delta) (s : Stream) → text_in d ≡ [] → reasoning_in d ≡ [] → gist (send d s) ≡ gist s
gist-silent d s e e' =
    gist-send d s
    ∙ rw (e, e')
        (ap (λ t. record (gist s) { texts = t; think = (gist s).think ++ [] })
            (append-nil (gist s).texts)
          ∙ ap (λ t. record (gist s) { think = t }) (append-nil (gist s).think))

pub gist-start_stream : (s : Stream) → gist (start_stream s) ≡ gist s
unfolding start_stream
gist-start_stream s = by_started s.started
  where
    by_started :
        (b : Bool) → gist (if b then s else send role (record s { started = true })) ≡ gist s
    by_started true = refl
    by_started false = gist-silent role (record s { started = true }) refl refl

gist-send_content :
    (t : Text) (s : Stream)
    → gist (send_content t s) ≡ record (gist s) { texts = (gist s).texts ++ t }
gist-send_content [] s = ap (λ t. record (gist s) { texts = t }) (sym (append-nil (gist s).texts))
gist-send_content (c ∷ t) s =
    gist-send (content (c ∷ t)) s
    ∙ ap (λ x. record (gist s) { texts = (gist s).texts ++ (c ∷ t); think = x })
        (append-nil (gist s).think)

gist-send_reasoning :
    (t : Text) (s : Stream)
    → gist (send_reasoning t s) ≡ record (gist s) { think = (gist s).think ++ t }
gist-send_reasoning [] s = ap (λ t. record (gist s) { think = t }) (sym (append-nil (gist s).think))
gist-send_reasoning (c ∷ t) s =
    gist-send (reasoning (c ∷ t)) s
    ∙ ap (λ x. record (gist s) { texts = x; think = (gist s).think ++ (c ∷ t) })
        (append-nil (gist s).texts)

gist-send_fed : (f : Option Fed) (s : Stream) → gist (send_fed f s) ≡ gist s
gist-send_fed none s = refl
gist-send_fed (some f) s = gist-silent _ s refl refl

gist-send_calls :
    (tcs : List ChatToolCall) (s : Stream)
    → gist (send_calls tcs s) ≡ record (gist s) { agg = feed_all s.agg tcs }
unfolding send_calls
gist-send_calls [] s = refl
gist-send_calls (tc ∷ tcs) s =
    let (agg, fed) = feed s.agg tc in
    gist-send_calls tcs (send_fed fed (record s { agg = agg }))
    ∙ ap (λ (c : Collected). record c { agg = feed_all c.agg tcs })
        (gist-send_fed fed (record s { agg = agg }))

pub gist-send_message :
    (m : ChatResponse) (s : Stream) → gist (send_message m s) ≡ collect_message m (gist s)
unfolding send_message collect_message
gist-send_message m s =
    ap (λ (c : Collected). record c { finish = finish_with c.finish m.stop_reason })
      (gist-send_calls m.delta_tool_calls _
        ∙ ap (λ (c : Collected). record c { agg = feed_all c.agg m.delta_tool_calls })
            (gist-send_reasoning m.delta_thinking _
              ∙ ap (λ (c : Collected). record c { think = c.think ++ m.delta_thinking })
                  (gist-send_content m.delta_text (record s { rid = id_with s.rid m.message_id }))))

IsSound-send :
    (d : Delta) (s : Stream) → ((c : Text) → args_in c d ≡ []) → IsSound s → IsSound (send d s)
IsSound-send d s e h = record {
  open_ended = (
    finish_in-append s.sent (chunk s.rid d none ∷ []) h.open_ended.0,
    error_in-append s.sent (chunk s.rid d none ∷ []) h.open_ended.1,
  );
  keyed = h.keyed;
  args = λ c.
      gather-send (args_in c) d s
      ∙ ap (λ t. gather (args_in c) s.sent ++ t) (e c)
      ∙ append-nil (gather (args_in c) s.sent)
      ∙ h.args c;
}

pub IsSound-start_stream : (s : Stream) → IsSound s → IsSound (start_stream s)
unfolding start_stream
IsSound-start_stream s h = by_started s.started
  where
    by_started : (b : Bool) → IsSound (if b then s else send role (record s { started = true }))
    by_started true = h
    by_started false =
        IsSound-send role (record s { started = true }) (λ c. refl)
          (record { open_ended = h.open_ended; keyed = h.keyed; args = h.args })

IsSound-send_content : (t : Text) (s : Stream) → IsSound s → IsSound (send_content t s)
IsSound-send_content [] s h = h
IsSound-send_content (c ∷ t) s h = IsSound-send (content (c ∷ t)) s (λ c. refl) h

IsSound-send_reasoning : (t : Text) (s : Stream) → IsSound s → IsSound (send_reasoning t s)
IsSound-send_reasoning [] s h = h
IsSound-send_reasoning (c ∷ t) s h = IsSound-send (reasoning (c ∷ t)) s (λ c. refl) h

-- A fed delta, behind the aggregation.
IsSound-send_fed :
    (agg : ToolAgg) (fed : Option Fed) (s : Stream)
    → IsKeyed agg
    → ((c : Text) → args_of agg c ≡ args_of s.agg c ++ sent_for c fed)
    → IsSound s
    → IsSound (send_fed fed (record s { agg = agg }))
IsSound-send_fed agg none s k e h = record {
  open_ended = h.open_ended;
  keyed = k;
  args = λ c. h.args c ∙ sym (e c ∙ append-nil (args_of s.agg c));
}
IsSound-send_fed agg (some f) s k e h =
    let d = call f.index f.call.id (if f.new_name then f.call.name else []) (delta_text f.delta) in
    record {
      open_ended = (
        finish_in-append s.sent (chunk s.rid d none ∷ []) h.open_ended.0,
        error_in-append s.sent (chunk s.rid d none ∷ []) h.open_ended.1,
      );
      keyed = k;
      args = λ c. gather-send (args_in c) d s ∙ ap (λ t. t ++ args_in c d) (h.args c) ∙ sym (e c);
    }

IsSound-send_calls : (tcs : List ChatToolCall) (s : Stream) → IsSound s → IsSound (send_calls tcs s)
unfolding send_calls
IsSound-send_calls [] s h = h
IsSound-send_calls (tc ∷ tcs) s h = IsSound-send_calls tcs _ (
    IsSound-send_fed (feed s.agg tc).0 (feed s.agg tc).1 s (feed-IsKeyed s.agg tc h.keyed)
      (λ c. feed-sent s.agg c tc h.keyed) h)

pub IsSound-send_message : (m : ChatResponse) (s : Stream) → IsSound s → IsSound (send_message m s)
unfolding send_message
IsSound-send_message m s h =
    let g = IsSound-send_calls m.delta_tool_calls _ (
      IsSound-send_reasoning m.delta_thinking _ (
        IsSound-send_content m.delta_text (record s { rid = id_with s.rid m.message_id })
          (record { open_ended = h.open_ended; keyed = h.keyed; args = h.args }))) in
    record { open_ended = g.open_ended; keyed = g.keyed; args = g.args }
