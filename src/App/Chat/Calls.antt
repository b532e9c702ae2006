-- ===== src/App/Chat/Calls.antt =====
-- The calls in the chunks of `_sse_stream` of devin_proxy/app.py: their names, their positions, and the
-- usage that no chunk of the loop has.
use devin_proxy.Prelude.{
  Text, Bool, true, false, not, ◌&&◌, ◌||◌, ◌≡◌, refl, ap, sym, ◌∙◌, subst, Option, none, some,
  List, [], ◌∷◌, ◌++◌, All, elem, is_empty, text_eq, text_beq, text_beq_iff, lookup, lookup-insert,
  append-nil, if◌then◌else◌, Bool-cases, Option-cases, inl, inr,
}
use devin_proxy.Data.{ChatToolCall, ChatResponse, Fields, Try, done, raised, msg, failed}
use devin_proxy.App.ToolAgg.{
  Call, ToolAgg, Fed, or_active, call_of, order_with, name_with, feed_call, feed,
}
use devin_proxy.App.ToolAgg.Deltas.{IsKeyed, call_of-insert, delta_text, feed_call-IsKeyed}
use devin_proxy.App.Ends.{LoopEnd}
use devin_proxy.App.Driver.Attempt.{Yield, from, from_none}
use devin_proxy.App.Chat.{
  Delta, role, call, Chunk, chunk, Stream, send, start_stream, send_content, send_reasoning,
  send_fed, send_calls, send_message, resume, send_yields,
}
use devin_proxy.App.Completion.{id_with}
use devin_proxy.App.Chat.Pieces.{gather, gather-append}
use devin_proxy.App.Chat.Places.{
  name_in, usage_in, IsAt, IsPlaced, is_named, AreNamed, YieldsNamed, is_usual, get_elem?-index_of,
  elem-append_left, elem-append_self, All-IsPlaced-append, All-append, usage_in-append,
}

-- What holds of the chunks and of the aggregation at every point of the loop.
pub record IsTold (names : Text → Text) (sent : List Chunk) (agg : ToolAgg) : Type 0 where
  pub listed : (c : Text) (x : Call) → lookup c agg.calls ≡ some x → elem c agg.order ≡ true
  pub named : (c : Text) → gather (name_in c) sent ≡ (call_of agg c).name
  pub usual : (c : Text) → is_usual names c (call_of agg c).name ≡ true
  pub placed : All (IsPlaced agg.order) sent
  pub no_usage : usage_in sent ≡ none
  pub keyed : IsKeyed agg

module _ (names : Text → Text) where
  -- A name that is told once is the name that is kept.
  name_step :
      (cid o n : Text)
      → is_usual names cid o ≡ true
      → is_usual names cid n ≡ true
      → (o ++ (if not (is_empty n) && is_empty o then name_with n o else []) ≡ name_with n o)
        × (is_usual names cid (name_with n o) ≡ true)
  name_step cid [] [] h k = (refl, refl)
  name_step cid [] (c ∷ n) h k = (refl, k)
  name_step cid (c ∷ o) [] h k = (append-nil (c ∷ o), h)
  name_step cid (b ∷ o) (c ∷ n) h k = (
    append-nil (b ∷ o)
        ∙ (text_beq_iff (b ∷ o) (names cid)).0 h
        ∙ sym ((text_beq_iff (c ∷ n) (names cid)).0 k),
    k,
  )

  usual_tc :
      (active : Text) (tc : ChatToolCall)
      → is_named names tc ≡ true
      → is_usual names (or_active tc.id active) tc.name ≡ true
  usual_tc active tc h = by_id tc.id tc.name h
    where
      by_id :
          (id name : Text)
          → is_empty name || (not (is_empty id) && text_beq name (names id)) ≡ true
          → is_usual names (or_active id active) name ≡ true
      by_id [] [] h = refl
      by_id [] (c ∷ name) h = cc
      by_id (c ∷ id) name h = h

  module _ (t : ToolAgg) (cid : Text) (tc : ChatToolCall) where
    abbrev fed_to : ToolAgg × Fed
    fed_to = feed_call t cid tc

    elem-order_with :
        ((c : Text) (x : Call) → lookup c t.calls ≡ some x → elem c t.order ≡ true)
        → elem cid (order_with t cid) ≡ true
    unfolding order_with
    elem-order_with h = elim (Option-cases (lookup cid t.calls)) [
      | inl e ↦ rw (e, order_with) (elem-append_self cid t.order)
      | inr (x, e) ↦ rw (e, order_with) (h cid x e)
    ]

    -- The order only grows.
    order_with_grows :
        (P : List Text → Type 0) → P t.order → P (t.order ++ cid ∷ []) → P (order_with t cid)
    unfolding order_with
    order_with_grows P h k = elim (Option-cases (lookup cid t.calls)) [
      | inl e ↦ rw (e, order_with) k
      | inr (x, e) ↦ rw (e, order_with) h
    ]

    -- A delta that is fed, behind the aggregation.
    IsTold-feed_call :
        (rid : Text) (sent : List Chunk)
        → is_usual names cid tc.name ≡ true
        → IsTold names sent t
        → IsTold names
            (sent
              ++ chunk rid
                  (call fed_to.1.index fed_to.1.call.id
                    (if fed_to.1.new_name then fed_to.1.call.name else [])
                    (delta_text fed_to.1.delta))
                  none
                ∷ [])
            fed_to.0
    unfolding feed_call
    IsTold-feed_call rid sent u h = record {
      listed = λ c x e. elim (Bool-cases (text_beq cid c)) [
        | inl b ↦
            subst (λ y. elem y (order_with t cid) ≡ true) ((text_beq_iff cid c).0 b)
              (elem-order_with h.listed)
        | inr b ↦
            let old : elem c t.order ≡ true =
              h.listed c x (sym (lookup-insert cid c _ t.calls ∙ rw b refl) ∙ e) in
            order_with_grows (λ l. elem c l ≡ true) old (elem-append_left c t.order _ old)
      ];
      named = λ c.
          gather-append (name_in c) sent _
          ∙ ap (λ a. a ++ (name_in c told ++ [])) (h.named c)
          ∙ elim (Bool-cases (text_beq cid c)) [
            | inl b ↦
                rw (call_of-insert t (order_with t cid) cid cid c fed_to.1.call, h.keyed.own cid, b)
                  (ap (λ a. (call_of t c).name ++ a) (append-nil _)
                    ∙ subst
                        (λ y.
                          (call_of t y).name
                            ++ (if not (is_empty tc.name) && is_empty (call_of t cid).name
                                then name_with tc.name (call_of t cid).name
                                else [])
                          ≡ name_with tc.name (call_of t cid).name)
                        ((text_beq_iff cid c).0 b) step.0)
            | inr b ↦
                rw (call_of-insert t (order_with t cid) cid cid c fed_to.1.call, h.keyed.own cid, b)
                  (append-nil _)
          ];
      usual = λ c. elim (Bool-cases (text_beq cid c)) [
        | inl b ↦
            rw (call_of-insert t (order_with t cid) cid cid c fed_to.1.call, b)
              (subst (λ y. is_usual names y (name_with tc.name (call_of t cid).name) ≡ true)
                ((text_beq_iff cid c).0 b) step.1)
        | inr b ↦ rw (call_of-insert t (order_with t cid) cid cid c fed_to.1.call, b) (h.usual c)
      ];
      placed =
          All-append (IsPlaced (order_with t cid)) sent _
            (order_with_grows (λ l. All (IsPlaced l) sent) h.placed
              (All-IsPlaced-append t.order (cid ∷ []) sent h.placed))
            (
              rw (h.keyed.own cid)
                  (get_elem?-index_of cid (order_with t cid) (elem-order_with h.listed)),
              tt,
            );
      no_usage = usage_in-append sent _ h.no_usage;
      keyed = feed_call-IsKeyed t cid tc h.keyed;
    }
      where
        told : Delta
        told =
            call fed_to.1.index fed_to.1.call.id
              (if fed_to.1.new_name then fed_to.1.call.name else []) (delta_text fed_to.1.delta)

        step :
            ((call_of t cid).name
                ++ (if not (is_empty tc.name) && is_empty (call_of t cid).name
                    then name_with tc.name (call_of t cid).name
                    else [])
              ≡ name_with tc.name (call_of t cid).name)
            × (is_usual names cid (name_with tc.name (call_of t cid).name) ≡ true)
        step = name_step cid (call_of t cid).name tc.name (h.usual cid) u

  -- A delta that tells no name and no position.
  IsTold-silent :
      (rid : Text) (fin : Option Text) (d : Delta) (sent : List Chunk) (agg : ToolAgg)
      → ((c : Text) → name_in c d ≡ [])
      → IsAt agg.order d
      → IsTold names sent agg
      → IsTold names (sent ++ chunk rid d fin ∷ []) agg
  IsTold-silent rid fin d sent agg e p h = record {
    listed = h.listed;
    named = λ c.
        gather-append (name_in c) sent _
        ∙ ap (λ a. gather (name_in c) sent ++ a) (append-nil (name_in c d) ∙ e c)
        ∙ append-nil (gather (name_in c) sent)
        ∙ h.named c;
    usual = h.usual;
    placed = All-append (IsPlaced agg.order) sent _ h.placed (p, tt);
    no_usage = usage_in-append sent _ h.no_usage;
    keyed = h.keyed;
  }

  abbrev StreamTold : Stream → Type 0
  StreamTold s = IsTold names s.sent s.agg

  pub IsTold-start_stream :
      (s : Stream)
      → IsTold names s.sent s.agg
      → IsTold names (start_stream s).sent (start_stream s).agg
  unfolding start_stream
  IsTold-start_stream s h = by_started s.started
    where
      by_started :
          (b : Bool) → StreamTold (if b then s else send role (record s { started = true }))
      by_started true = h
      by_started false = IsTold-silent s.rid none role s.sent s.agg (λ c. refl) tt h

  IsTold-send_content : (t : Text) (s : Stream) → StreamTold s → StreamTold (send_content t s)
  IsTold-send_content [] s h = h
  IsTold-send_content (c ∷ t) s h = IsTold-silent s.rid none _ s.sent s.agg (λ c. refl) tt h

  IsTold-send_reasoning : (t : Text) (s : Stream) → StreamTold s → StreamTold (send_reasoning t s)
  IsTold-send_reasoning [] s h = h
  IsTold-send_reasoning (c ∷ t) s h = IsTold-silent s.rid none _ s.sent s.agg (λ c. refl) tt h

  IsTold-send_fed :
      (tc : ChatToolCall) (s : Stream)
      → is_named names tc ≡ true
      → StreamTold s
      → StreamTold (send_fed (feed s.agg tc).1 (record s { agg = (feed s.agg tc).0 }))
  unfolding feed
  IsTold-send_fed tc s n h = elim (Bool-cases (is_empty (or_active tc.id s.agg.active))) [
    | inl e ↦ rw e h
    | inr e ↦ rw e (
        IsTold-feed_call s.agg (or_active tc.id s.agg.active) tc s.rid s.sent
          (usual_tc s.agg.active tc n) h)
  ]

  IsTold-send_calls :
      (tcs : List ChatToolCall) (s : Stream)
      → AreNamed names tcs
      → StreamTold s
      → StreamTold (send_calls tcs s)
  unfolding send_calls
  IsTold-send_calls [] s n h = h
  IsTold-send_calls (tc ∷ tcs) s n h = IsTold-send_calls tcs _ n.1 (IsTold-send_fed tc s n.0 h)

  IsTold-send_message :
      (m : ChatResponse) (s : Stream)
      → AreNamed names m.delta_tool_calls
      → StreamTold s
      → StreamTold (send_message m s)
  unfolding send_message
  IsTold-send_message m s n h = IsTold-send_calls m.delta_tool_calls _ n (
      IsTold-send_reasoning m.delta_thinking _
        (IsTold-send_content m.delta_text (record s { rid = id_with s.rid m.message_id }) h))

  IsTold-resume :
      (lower : Text → Text) (rest : Stream → Stream × LoopEnd) (s : Stream)
      (u : Try (Option Fields))
      → ((t : Stream) → StreamTold t → StreamTold (rest t).0)
      → StreamTold s
      → StreamTold (resume lower rest s u).0
  IsTold-resume lower rest s (raised e) k h = h
  IsTold-resume lower rest s (done u) k h = k (record s { usage = u }) h

  pub IsTold-send_yields :
      (lower : Text → Text) (ys : List Yield) (s : Stream)
      → YieldsNamed names ys
      → IsTold names s.sent s.agg
      → IsTold names (send_yields lower ys s).0.sent (send_yields lower ys s).0.agg
  unfolding send_yields
  IsTold-send_yields lower [] s n h = h
  IsTold-send_yields lower (from r (failed e) ∷ ys) s n h =
      IsTold-start_stream (record s { account = some r }) h
  IsTold-send_yields lower (from_none (failed e) ∷ ys) s n h = IsTold-start_stream s h
  IsTold-send_yields lower (from r (msg m) ∷ ys) s n h =
      IsTold-resume lower (send_yields lower ys) _ _ (λ t. IsTold-send_yields lower ys t n.1)
        (IsTold-send_message m _ n.0 (IsTold-start_stream (record s { account = some r }) h))
  IsTold-send_yields lower (from_none (msg m) ∷ ys) s n h =
      IsTold-resume lower (send_yields lower ys) _ _ (λ t. IsTold-send_yields lower ys t n.1)
        (IsTold-send_message m _ n.0 (IsTold-start_stream s h))
