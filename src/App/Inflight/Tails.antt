-- ===== src/App/Inflight/Tails.antt =====
-- The tails that the tracker keeps for the console.
use devin_proxy.Prelude.{
  ℕ, zero, suc, ◌-◌, ◌≤◌, Text, Bool, true, false, ◌≡◌, refl, sym, ◌∙◌, subst, Option, none, some,
  List, [], ◌∷◌, ◌++◌, lookup, insert, lookup-insert, nat_beq, nat_eq, length, length-drop, arith,
  Bool-cases, Option-cases, inl, inr,
}
use devin_proxy.Data.{ChatToolCall, ErrDict, Event, msg, failed}
use devin_proxy.Accounts.Account.{Account}
use devin_proxy.App.ToolAgg.{Fed, feed}
use devin_proxy.App.Inflight.{
  Entry, Tracker, new_entry, register, on_entry, update, finish, push_tail, see_text, see_thinking,
  see_name, see_delta, see_fed, see_calls, see_tools, see_stop, see_any, see, event,
}

abbrev IsShort : Entry → Type 0
IsShort e = length e.tail ≤ 400

push_tail-IsShort : (tail t : Text) → length (push_tail tail t) ≤ 400
unfolding push_tail
push_tail-IsShort tail t = omega (arith, length-drop (length (tail ++ t) - 400) (tail ++ t))

see_any-IsShort : (now : ℕ) (a : Account) (e : Entry) → IsShort e → IsShort (see_any now a e)
see_any-IsShort now a e h = elim (Option-cases e.first_ev_at) [
  | inl q ↦ rw q h
  | inr (t, q) ↦ rw q h
]

see_text-IsShort : (t : Text) (e : Entry) → IsShort e → IsShort (see_text t e)
see_text-IsShort [] e h = h
see_text-IsShort (c ∷ t) e h = push_tail-IsShort e.tail (c ∷ t)

see_thinking-IsShort : (t : Text) (e : Entry) → IsShort e → IsShort (see_thinking t e)
see_thinking-IsShort [] e h = h
see_thinking-IsShort (c ∷ t) e h = push_tail-IsShort e.tail (c ∷ t)

see_name-IsShort : (b : Bool) (n : Text) (e : Entry) → IsShort e → IsShort (see_name b n e)
see_name-IsShort true (c ∷ n) e h = push_tail-IsShort e.tail _
see_name-IsShort true [] e h = h
see_name-IsShort false n e h = h

see_delta-IsShort : (d : Option Text) (e : Entry) → IsShort e → IsShort (see_delta d e)
see_delta-IsShort none e h = h
see_delta-IsShort (some []) e h = h
see_delta-IsShort (some (c ∷ d)) e h = push_tail-IsShort e.tail (c ∷ d)

see_fed-IsShort : (f : Option Fed) (e : Entry) → IsShort e → IsShort (see_fed f e)
see_fed-IsShort none e h = h
see_fed-IsShort (some f) e h =
    see_delta-IsShort f.delta (see_name f.new_name f.call.name e)
      (see_name-IsShort f.new_name f.call.name e h)

see_calls-IsShort : (cs : List ChatToolCall) (e : Entry) → IsShort e → IsShort (see_calls cs e)
unfolding see_calls
see_calls-IsShort [] e h = h
see_calls-IsShort (c ∷ cs) e h =
    let r = feed e.tool_agg c in
    see_calls-IsShort cs (see_fed r.1 (record e { tool_agg = r.0 }))
      (see_fed-IsShort r.1 (record e { tool_agg = r.0 }) h)

see_tools-IsShort : (cs : List ChatToolCall) (e : Entry) → IsShort e → IsShort (see_tools cs e)
see_tools-IsShort [] e h = h
see_tools-IsShort (c ∷ cs) e h = see_calls-IsShort (c ∷ cs) _ h

see_stop-IsShort : (n : ℕ) (e : Entry) → IsShort e → IsShort (see_stop n e)
see_stop-IsShort zero e h = h
see_stop-IsShort (suc n) e h = h

see-IsShort :
    (kind_of : ErrDict → Text) (now : ℕ) (a : Account) (ev : Event) (e : Entry)
    → IsShort e
    → IsShort (see kind_of now a ev e)
unfolding see
see-IsShort kind_of now a (failed d) e h = see_any-IsShort now a e h
see-IsShort kind_of now a (msg m) e h = see_stop-IsShort m.stop_reason _ (
    see_tools-IsShort m.delta_tool_calls _ (
      see_thinking-IsShort m.delta_thinking _
        (see_text-IsShort m.delta_text (see_any now a e) (see_any-IsShort now a e h))))

abbrev AreShort : Tracker → Type 0
AreShort t = (rid : ℕ) (e : Entry) → lookup rid t.reqs ≡ some e → IsShort e

insert-AreShort :
    (t : Tracker) (rid n : ℕ) (e : Entry)
    → AreShort t
    → IsShort e
    → AreShort (record { reqs = insert rid e t.reqs; next = n })
insert-AreShort t rid n e h s i x q = elim (Bool-cases (nat_beq rid i)) [
  | inl b ↦ subst IsShort (some_inj (sym (rw b at (lookup-insert rid i e t.reqs)) ∙ q)) s
  | inr b ↦ h i x (sym (rw b at (lookup-insert rid i e t.reqs)) ∙ q)
]
  where
    some_inj : {a b : Entry} → some a ≡ some b → a ≡ b
    some_inj h = cc

on_none :
    (rid : ℕ) (f : Entry → Entry) (t : Tracker) → lookup rid t.reqs ≡ none → on_entry rid f t ≡ t
on_none rid f t q = rw (q, on_entry) refl

on_some :
    (rid : ℕ) (f : Entry → Entry) (t : Tracker) (e : Entry)
    → lookup rid t.reqs ≡ some e
    → on_entry rid f t ≡ record t { reqs = insert rid (f e) t.reqs }
on_some rid f t e q = rw (q, on_entry) refl

on_entry-AreShort :
    (rid : ℕ) (f : Entry → Entry) (t : Tracker)
    → ((e : Entry) → IsShort e → IsShort (f e))
    → AreShort t
    → AreShort (on_entry rid f t)
on_entry-AreShort rid f t k h = elim (Option-cases (lookup rid t.reqs)) [
  | inl q ↦ subst AreShort (sym (on_none rid f t q)) h
  | inr (e, q) ↦
      subst AreShort (sym (on_some rid f t e q))
        (insert-AreShort t rid t.next (f e) h (k e (h rid e q)))
]

-- One call of the tracker's methods.
pub data Call : Type 0 where
  registers : ℕ → Call
  updates : ℕ → ℕ → Account → Call
  events : ℕ → ℕ → Event → Account → Call
  finishes : ℕ → ℕ → Call

abbrev pub step : (ErrDict → Text) → Tracker → Call → Tracker
step kind_of t (registers now) = (register now t).0
step kind_of t (updates rid n a) = update rid n a t
step kind_of t (events now rid ev a) = event kind_of now rid ev a t
step kind_of t (finishes now rid) = finish now rid t

abbrev pub run : (ErrDict → Text) → Tracker → List Call → Tracker
run kind_of t [] = t
run kind_of t (c ∷ cs) = run kind_of (step kind_of t c) cs

step-AreShort :
    (kind_of : ErrDict → Text) (t : Tracker) (c : Call) → AreShort t → AreShort (step kind_of t c)
unfolding register update finish event
step-AreShort kind_of t (registers now) h =
    insert-AreShort t (suc t.next) (suc t.next) (new_entry now) h (omega arith)
step-AreShort kind_of t (updates rid n a) h = on_entry-AreShort rid _ t (λ e s. s) h
step-AreShort kind_of t (events now rid ev a) h =
    on_entry-AreShort rid (see kind_of now a ev) t (see-IsShort kind_of now a ev) h
step-AreShort kind_of t (finishes now rid) h = on_entry-AreShort rid _ t (λ e s. s) h

run_all :
    (kind_of : ErrDict → Text) (t : Tracker) (cs : List Call)
    → AreShort t
    → AreShort (run kind_of t cs)
run_all kind_of t [] h = h
run_all kind_of t (c ∷ cs) h = run_all kind_of (step kind_of t c) cs (step-AreShort kind_of t c h)

no_entries : (n : ℕ) → AreShort (record { reqs = []; next = n })
unfolding lookup
no_entries n i x h = nothing h
  where
    nothing : {A : Type 0} → none ≡ some x → A
    nothing h = cc

-- Over any sequence of calls of the tracker, starting with no entries, the tail that an entry
-- keeps for the console has at most 400 characters.
pub run_tail_le :
    (kind_of : ErrDict → Text) (cs : List Call) (n rid : ℕ) (e : Entry)
    → lookup rid (run kind_of (record { reqs = []; next = n }) cs).reqs ≡ some e
    → length e.tail ≤ 400
run_tail_le kind_of cs n rid e q =
    run_all kind_of (record { reqs = []; next = n }) cs (no_entries n) rid e q
