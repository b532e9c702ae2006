-- ===== src/App/ToolAgg/Deltas.antt =====
-- The deltas that `ToolAgg.feed` hands out for a call make up the call's arguments.
use devin_proxy.Prelude.{
  ◌≡◌, refl, ap, ◌∙◌, sym, Text, true, Option, none, some, List, [], ◌∷◌, ◌++◌, is_empty, drop,
  length, starts_with, text_eq, text_beq, text_beq_iff, lookup, insert, lookup-insert, append-nil,
  append_assoc, arith, Bool-cases, inl, inr, if◌then◌else◌,
}
use devin_proxy.Data.{ChatToolCall}
use devin_proxy.App.ToolAgg.{
  ToolAgg, Call, Fed, call_of, or_active, grow, args_with, feed_call, feed, order_with, empty,
}

starts_with-append : (s p : Text) → starts_with s p ≡ true → p ++ drop (length p) s ≡ s
unfolding starts_with
starts_with-append s [] h = refl
starts_with-append [] (b ∷ p) h = cc
starts_with-append (a ∷ s) (b ∷ p) h = ground (arith, starts_with-append s p)

abbrev pub delta_text : Option Text → Text
delta_text none = []
delta_text (some d) = d

-- The arguments grow by exactly the delta.
args_with_lem : (old new : Text) → (args_with old new).0 ≡ old ++ delta_text (args_with old new).1
unfolding args_with grow
args_with_lem old [] = sym (append-nil old)
args_with_lem old (c ∷ new) = ground (arith, starts_with-append (c ∷ new) old)

-- What a client has been sent for the call `c`.
abbrev pub sent_for : Text → Option Fed → Text
sent_for c none = []
sent_for c (some f) = if text_beq f.call.id c then delta_text f.delta else []

abbrev pub args_of : ToolAgg → Text → Text
args_of t c = (call_of t c).args

-- Every call is kept under its own id.
pub record IsKeyed (t : ToolAgg) : Type 0 where
  pub own : (c : Text) → (call_of t c).id ≡ c

pub call_of-insert :
    (t : ToolAgg) (order : List Text) (active cid c : Text) (call : Call)
    → call_of (record { calls = insert cid call t.calls; order = order; active = active }) c
      ≡ (if text_beq cid c then call else call_of t c)
unfolding call_of
call_of-insert t order active cid c call = ground (arith, lookup-insert cid c call t.calls)

pub feed_call-IsKeyed :
    (t : ToolAgg) (cid : Text) (tc : ChatToolCall) → IsKeyed t → IsKeyed (feed_call t cid tc).0
unfolding feed_call
feed_call-IsKeyed t cid tc k = record {
  own = λ c. rw call_of-insert (ground (arith, k.own cid, k.own c, text_beq_iff cid c));
}

feed_call-sent :
    (t : ToolAgg) (cid c : Text) (tc : ChatToolCall)
    → IsKeyed t
    → args_of (feed_call t cid tc).0 c ≡ args_of t c ++ sent_for c (some (feed_call t cid tc).1)
unfolding feed_call
feed_call-sent t cid c tc k =
    ap (λ (e : Call). e.args)
      (call_of-insert t (order_with t cid) cid cid c (feed_call t cid tc).1.call)
    ∙ elim (Bool-cases (text_beq cid c)) [
      | inl e ↦
          rw ((text_beq_iff cid c).0 e, k.own c, (text_beq_iff c c).1 refl)
            (args_with_lem (args_of t c) tc.arguments)
      | inr e ↦ rw (e, k.own cid, e) (sym (append-nil (args_of t c)))
    ]

pub feed-IsKeyed : (t : ToolAgg) (tc : ChatToolCall) → IsKeyed t → IsKeyed (feed t tc).0
unfolding feed
feed-IsKeyed t tc k = elim (Bool-cases (is_empty (or_active tc.id t.active))) [
  | inl e ↦ rw e k
  | inr e ↦ rw e (feed_call-IsKeyed t (or_active tc.id t.active) tc k)
]

pub feed-sent :
    (t : ToolAgg) (c : Text) (tc : ChatToolCall)
    → IsKeyed t
    → args_of (feed t tc).0 c ≡ args_of t c ++ sent_for c (feed t tc).1
unfolding feed
feed-sent t c tc k = elim (Bool-cases (is_empty (or_active tc.id t.active))) [
  | inl e ↦ rw e (sym (append-nil (args_of t c)))
  | inr e ↦ rw e (feed_call-sent t (or_active tc.id t.active) c tc k)
]

-- A whole stream of tool-call deltas, and what a client has been sent for the call `c`.
abbrev pub feed_all : ToolAgg → List ChatToolCall → ToolAgg
feed_all t [] = t
feed_all t (tc ∷ tcs) = feed_all (feed t tc).0 tcs

abbrev pub sent_all : Text → ToolAgg → List ChatToolCall → Text
sent_all c t [] = []
sent_all c t (tc ∷ tcs) = sent_for c (feed t tc).1 ++ sent_all c (feed t tc).0 tcs

-- Whether the upstream sends cumulative arguments or pieces, and however the deltas of several calls
-- are mixed: what has been handed out for a call, put together, is what its arguments have grown by.
pub args_of-feed_all :
    (tcs : List ChatToolCall) (t : ToolAgg) (c : Text)
    → IsKeyed t
    → args_of (feed_all t tcs) c ≡ args_of t c ++ sent_all c t tcs
args_of-feed_all [] t c k = sym (append-nil (args_of t c))
args_of-feed_all (tc ∷ tcs) t c k =
    args_of-feed_all tcs (feed t tc).0 c (feed-IsKeyed t tc k)
    ∙ ap (λ a. a ++ sent_all c (feed t tc).0 tcs) (feed-sent t c tc k)
    ∙ append_assoc (args_of t c) (sent_for c (feed t tc).1) (sent_all c (feed t tc).0 tcs)

pub empty-IsKeyed : IsKeyed empty
empty-IsKeyed = record { own = λ c. unfold call_of lookup in refl }
