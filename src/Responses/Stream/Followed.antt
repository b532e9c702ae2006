-- ===== src/Responses/Stream/Followed.antt =====
-- What a client knows of the emitter of `_sse` in devin_proxy/responses.py, and the opening and closing of
-- items.
use devin_proxy.Prelude.{
  codes, ℕ, suc, Text, Bool, true, false, ◌≡◌, refl, sym, subst, Option, none, some, List, [], ◌∷◌,
  ◌++◌, elem, text_eq, ==_self, if◌then◌else◌,
}
use devin_proxy.App.ToolAgg.{Call}
use devin_proxy.Responses.Output.{function_call, custom_call}
use devin_proxy.Responses.Stream.{
  Setup, Sse, Frame, framed, Kind, is_reasoning, is_message, is_call, OpenCall, Emitter, is_kind,
  close_kind, close_open, open_reasoning, open_message, open_fc, rs_id, msg_id, closing_text,
  called,
}
use devin_proxy.Responses.Stream.Protocol.{
  Phase, idle, reasoning_open, message_open, call_open, View, initial, IsCall, function_item,
  custom_item, Step, Run, here, next, Run-append, add_reasoning, add_summary, reasoned,
  close_summary, close_reasoning, add_message, add_text, said, close_text, close_message, add_call,
  close_call,
}

abbrev pub Traced : Emitter → View → Type 0
Traced s v = Run 0 initial s.sent s.seq v

pub Run-emit :
    {fs : List Frame} {n : ℕ} {e : Sse} {v w : View}
    → Run 0 initial fs n v
    → Step v e w
    → Run 0 initial (fs ++ framed (suc n) e ∷ []) (suc n) w
Run-emit h st = Run-append h (next st here)

call_item_lem :
    (b : Bool) (id status call_id name t : Text)
    → IsCall b id status t
        (if b then custom_call id status call_id name t else function_call id status call_id name t)
call_item_lem true id status call_id name t = custom_item
call_item_lem false id status call_id name t = function_item

abbrev pub Known : Option OpenCall → List Text → Type 0
Known none cs = Unit
Known (some o) cs = elem o.id cs ≡ true

-- Behind its first call, a stream always has an open item.
abbrev pub Busy : Option Kind → Option OpenCall → Type 0
Busy none (some o) = ⊥
Busy k o = Unit

pub is_kind→eq : (j : Kind) (k : Option Kind) → is_kind j k ≡ true → k ≡ some j
is_kind→eq is_reasoning (some is_reasoning) h = refl
is_kind→eq is_message (some is_message) h = refl
is_kind→eq is_call (some is_call) h = refl
is_kind→eq is_reasoning (some is_message) h = cc
is_kind→eq is_reasoning (some is_call) h = cc
is_kind→eq is_message (some is_reasoning) h = cc
is_kind→eq is_message (some is_call) h = cc
is_kind→eq is_call (some is_reasoning) h = cc
is_kind→eq is_call (some is_message) h = cc
is_kind→eq is_reasoning none h = cc
is_kind→eq is_message none h = cc
is_kind→eq is_call none h = cc

module _ (given : Setup) where
  abbrev pub phase_of : Option Kind → Option OpenCall → Phase
  phase_of (some is_reasoning) o = reasoning_open (rs_id given)
  phase_of (some is_message) o = message_open (msg_id given)
  phase_of (some is_call) (some o) = call_open o.custom o.id
  phase_of (some is_call) none = idle
  phase_of none o = idle

  abbrev pub view : Option Kind → Option OpenCall → Emitter → List Text → View
  view k o s cs = record {
    phase = phase_of k o;
    opened = s.opened;
    text = s.text;
    think = s.think;
    calls = cs;
  }

  -- What a client knows of the emitter.
  pub record IsFollowed (s : Emitter) : Type 0 where
    pub calls : List Text
    pub run : Traced s (view s.open_kind s.fc_open s calls)
    pub known : Known s.fc_open calls
    pub busy : Busy s.open_kind s.fc_open

  close-Traced :
      (k : Option Kind) (o : Option OpenCall) (s : Emitter) (cs : List Text)
      → Traced s (view k o s cs)
      → Traced (close_kind given k o s) (view none o (close_kind given k o s) cs)
  unfolding close_kind
  close-Traced (some is_reasoning) o s cs h =
      Run-emit
        (Run-emit (Run-emit h (reasoned (rs_id given) refl)) (close_summary (rs_id given) refl))
        (close_reasoning (rs_id given) refl)
  close-Traced (some is_message) o s cs h =
      Run-emit (Run-emit (Run-emit h (said (msg_id given) refl)) (close_text (msg_id given) refl))
        (close_message (msg_id given) refl)
  close-Traced (some is_call) (some o) s cs h =
      let c = called given s.agg o in
      Run-emit (Run-emit h (Step.called (closing_text given o c) refl))
        (close_call refl (call_item_lem o.custom o.id _ o.call_id c.name (closing_text given o c)))
  close-Traced (some is_call) none s cs h = h
  close-Traced none o s cs h = h

  fc_open-close :
      (k : Option Kind) (o : Option OpenCall) (s : Emitter)
      → (close_kind given k o s).fc_open ≡ s.fc_open
  unfolding close_kind
  fc_open-close (some is_reasoning) o s = refl
  fc_open-close (some is_message) o s = refl
  fc_open-close (some is_call) (some o) s = refl
  fc_open-close (some is_call) none s = refl
  fc_open-close none o s = refl

  -- Between two items, whatever item is opened next.
  pub closed :
      (s : Emitter) (h : IsFollowed s)
      → Traced
          (close_open given s)
          (view none (close_open given s).fc_open (close_open given s) h.calls)
  closed s h = close-Traced s.open_kind s.fc_open s h.calls h.run

  pub open_reasoning-IsFollowed :
      (s : Emitter) → IsFollowed s → IsFollowed (open_reasoning given (close_open given s))
  unfolding open_reasoning
  open_reasoning-IsFollowed s h = record {
    calls = h.calls;
    run =
        Run-emit (Run-emit (closed s h) (add_reasoning (rs_id given) refl))
          (add_summary (rs_id given) refl);
    known = subst (λ o. Known o h.calls) (sym (fc_open-close s.open_kind s.fc_open s)) h.known;
    busy = tt;
  }

  pub open_message-IsFollowed :
      (s : Emitter) → IsFollowed s → IsFollowed (open_message given (close_open given s))
  unfolding open_message
  open_message-IsFollowed s h = record {
    calls = h.calls;
    run =
        Run-emit (Run-emit (closed s h) (add_message (msg_id given) refl))
          (add_text (msg_id given) refl);
    known = subst (λ o. Known o h.calls) (sym (fc_open-close s.open_kind s.fc_open s)) h.known;
    busy = tt;
  }

  pub open_fc-IsFollowed :
      (c : Call) (s : Emitter) → IsFollowed s → IsFollowed (open_fc given c (close_open given s))
  unfolding open_fc
  open_fc-IsFollowed c s h =
      let t = close_open given s in
      let id = given.ids (codes "fc") t.drawn in
      record {
        calls = id ∷ h.calls;
        run =
            Run-emit (closed s h)
              (add_call refl (call_item_lem (elem c.name given.custom) id _ c.id c.name []));
        known = rw (==_self id) refl;
        busy = tt;
      }
