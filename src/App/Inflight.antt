-- ===== src/App/Inflight.antt =====
-- The tracker of requests in flight in devin_proxy/app.py. The feed that it notifies is left out.
pub mod Tails
use devin_proxy.Prelude.{
  ℕ, zero, suc, ◌+◌, ◌-◌, ◌≤◌, ◌<◌, Text, codes, Bool, true, false, ◌≡◌, refl, ap, ◌∙◌, Option,
  none, some, List, [], ◌∷◌, ◌++◌, Dict, lookup, insert, lookup-insert, nat_eq, nat_beq,
  nat_beq_iff, length, length-drop, drop, is_empty, if◌then◌else◌, arith, Bool-cases, inl, inr,
  or_else,
}
use devin_proxy.Data.{ChatToolCall, ChatResponse, ErrDict, Event, msg, failed, decimal}
use devin_proxy.Accounts.Account.{Account, display}
use devin_proxy.App.ToolAgg.{ToolAgg, Fed, empty, feed}

pub data Phase : Type 0 where
  connecting streaming finished : Phase

-- The columns of an entry that the events change, with the times of the phases.
pub record Entry : Type 0 where
  pub t0 : ℕ
  pub phase : Phase
  pub account : Option Text
  pub account_id : Option ℕ
  pub attempt : ℕ
  pub chunks : ℕ
  pub text_chars : ℕ
  pub think_chars : ℕ
  pub tool_calls : ℕ
  pub tool_chars : ℕ
  pub tool_agg : ToolAgg
  pub first_ev_at : Option ℕ
  pub last_ev_at : Option ℕ
  pub last_ev : Option Text
  pub tail : Text
  pub done_at : Option ℕ

pub record Tracker : Type 0 where
  pub reqs : Dict ℕ Entry
  pub next : ℕ

abbrev pub new_entry : ℕ → Entry
new_entry now = record {
  t0 = now;
  phase = connecting;
  account = none;
  account_id = none;
  attempt = 0;
  chunks = 0;
  text_chars = 0;
  think_chars = 0;
  tool_calls = 0;
  tool_chars = 0;
  tool_agg = empty;
  first_ev_at = none;
  last_ev_at = none;
  last_ev = none;
  tail = [];
  done_at = none;
}

unfoldable pub register : ℕ → Tracker → Tracker × ℕ
register now t =
    let rid = suc t.next in (record { reqs = insert rid (new_entry now) t.reqs; next = rid }, rid)

abbrev pub on_entry : ℕ → (Entry → Entry) → Tracker → Tracker
on_entry rid f t = elim (lookup rid t.reqs) [
  | none ↦ t
  | some e ↦ record t { reqs = insert rid (f e) t.reqs }
]

-- `fl.update` of the driver: the attempt and its account
unfoldable pub update : ℕ → ℕ → Account → Tracker → Tracker
update rid n a =
    on_entry rid
      (λ e. record e { attempt = n; account = some (display decimal a); account_id = some a.id })

unfoldable pub finish : ℕ → ℕ → Tracker → Tracker
finish now rid = on_entry rid (λ e. record e { phase = finished; done_at = some now })

-- `(tail + t)[-400:]`
unfoldable pub push_tail : Text → Text → Text
push_tail tail t = let s = tail ++ t in drop (length s - 400) s

abbrev pub mark_first : ℕ → Entry → Entry
mark_first now e = elim e.first_ev_at [
  | none ↦ record e { first_ev_at = some now; phase = streaming }
  | some t ↦ e
]

abbrev pub see_text : Text → Entry → Entry
see_text [] e = e
see_text (c ∷ t) e = record e {
  text_chars = e.text_chars + length (c ∷ t);
  tail = push_tail e.tail (c ∷ t);
  last_ev = some (codes "text");
}

abbrev pub see_thinking : Text → Entry → Entry
see_thinking [] e = e
see_thinking (c ∷ t) e = record e {
  think_chars = e.think_chars + length (c ∷ t);
  tail = push_tail e.tail (c ∷ t);
  last_ev = some (codes "think");
}

-- A new name goes to the tail between "\n🔧 " and a space.
abbrev pub see_name : Bool → Text → Entry → Entry
see_name true (c ∷ n) e = record e {
  tool_chars = e.tool_chars + length (c ∷ n);
  tail = push_tail e.tail (10 ∷ 128295 ∷ 32 ∷ (c ∷ n) ++ 32 ∷ []);
}
see_name _ _ e = e

abbrev pub see_delta : Option Text → Entry → Entry
see_delta (some (c ∷ d)) e = record e {
  tool_chars = e.tool_chars + length (c ∷ d);
  tail = push_tail e.tail (c ∷ d);
}
see_delta _ e = e

abbrev pub see_fed : Option Fed → Entry → Entry
see_fed none e = e
see_fed (some f) e = see_delta f.delta (see_name f.new_name f.call.name e)

unfoldable pub see_calls : List ChatToolCall → Entry → Entry
unfolding feed
see_calls [] e = e
see_calls (c ∷ cs) e =
    let r = feed e.tool_agg c in see_calls cs (see_fed r.1 (record e { tool_agg = r.0 }))

abbrev pub see_tools : List ChatToolCall → Entry → Entry
see_tools [] e = e
see_tools (c ∷ cs) e =
    see_calls (c ∷ cs)
      (record e { tool_calls = e.tool_calls + length (c ∷ cs); last_ev = some (codes "tool_call") })

abbrev pub see_stop : ℕ → Entry → Entry
see_stop zero e = e
see_stop (suc n) e = record e { last_ev = some (codes "stop:" ++ decimal (suc n)) }

-- What every event does, an error included.
abbrev pub see_any : ℕ → Account → Entry → Entry
see_any now a e = record (mark_first now e) {
  last_ev_at = some now;
  chunks = suc e.chunks;
  account = some (display decimal a);
  account_id = some a.id;
}

-- `event`, the account being the one that the driver gives; the token counts are left out, and the
-- kind of an error is a parameter's text.
unfoldable pub see : (ErrDict → Text) → ℕ → Account → Event → Entry → Entry
unfolding see_calls
see kind_of now a (failed d) e = record (see_any now a e) {
  last_ev = some (codes "err:" ++ kind_of d);
}
see kind_of now a (msg m) e = see_stop m.stop_reason (
    see_tools m.delta_tool_calls
      (see_thinking m.delta_thinking (see_text m.delta_text (see_any now a e))))

unfoldable pub event : (ErrDict → Text) → ℕ → ℕ → Event → Account → Tracker → Tracker
unfolding see
event kind_of now rid ev a = on_entry rid (see kind_of now a ev)
