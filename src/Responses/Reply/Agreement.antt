-- ===== src/Responses/Reply/Agreement.antt =====
-- The streamed and the collected response of devin_proxy/responses.py are made of the same parts.
use devin_proxy.Prelude.{
  Text, Bool, true, false, ◌≡◌, ◌≢◌, refl, ap, sym, ◌∙◌, List, [], ◌∷◌, ◌++◌, Option, none, some,
  append-nil, not, ◌&&◌, if◌then◌else◌,
}
use devin_proxy.Data.{ChatToolCall, ChatResponse, Fields, Try, done, raised, msg, failed}
use devin_proxy.Upstream.Usage.{add_usage}
use devin_proxy.App.ToolAgg.{ToolAgg, Fed, feed}
use devin_proxy.App.ToolAgg.Deltas.{feed_all}
use devin_proxy.App.Ends.{LoopEnd, at_error, crashed, failed_row, ok_row, through}
use devin_proxy.App.Driver.Attempt.{Yield, from, from_none}
use devin_proxy.App.Driver.Loop.{Outcome, returned, disconnected, out_of_fuel}
use devin_proxy.Responses.Stream.{
  Kind, is_reasoning, is_message, is_call, OpenCall, Emitter, is_kind, is_open_for, wants_item,
  close_kind, close_open, open_reasoning, open_message, open_fc, send_thinking, send_text,
  send_delta, send_fed, send_call, send_calls, send_message, send_yields, unless_nil, resume,
  with_account,
}
use devin_proxy.Responses.Reply.{
  Job, Collected, setup, end_stream, answer_of, send_failure, send_response, collect_message,
  collect_yields, go_on,
}

-- What the two loops have in common.
abbrev pub gist : Emitter → Collected
gist s = record {
  texts = s.text;
  think = s.think;
  agg = s.agg;
  usage = s.usage;
  account = s.account;
}

module _ (job : Job) where
  gist-close_kind :
      (k : Option Kind) (o : Option OpenCall) (s : Emitter)
      → gist (close_kind (setup job) k o s) ≡ gist s
  unfolding close_kind
  gist-close_kind (some is_reasoning) o s = refl
  gist-close_kind (some is_message) o s = refl
  gist-close_kind (some is_call) (some o) s = refl
  gist-close_kind (some is_call) none s = refl
  gist-close_kind none o s = refl

  pub gist-close : (s : Emitter) → gist (close_open (setup job) s) ≡ gist s
  gist-close s = gist-close_kind s.open_kind s.fc_open s

  gist-send_thinking :
      (d : Text) (s : Emitter)
      → gist (send_thinking (setup job) d s) ≡ record (gist s) { think = s.think ++ d }
  unfolding send_thinking open_reasoning
  gist-send_thinking d s = by_kind (is_kind is_reasoning s.open_kind)
    where
      thinks : Collected → Collected
      thinks c = record c { think = c.think ++ d }

      by_kind :
          (b : Bool)
          → thinks (gist (if b then s else open_reasoning (setup job) (close_open (setup job) s)))
            ≡ thinks (gist s)
      by_kind true = refl
      by_kind false = ap thinks (gist-close s)

  gist-send_text :
      (d : Text) (s : Emitter)
      → gist (send_text (setup job) d s) ≡ record (gist s) { texts = s.text ++ d }
  unfolding send_text open_message
  gist-send_text d s = by_kind (is_kind is_message s.open_kind)
    where
      says : Collected → Collected
      says c = record c { texts = c.texts ++ d }

      by_kind :
          (b : Bool)
          → says (gist (if b then s else open_message (setup job) (close_open (setup job) s)))
            ≡ says (gist s)
      by_kind true = refl
      by_kind false = ap says (gist-close s)

  gist-send_delta :
      (d : Option Text) (o : Option OpenCall) (s : Emitter)
      → gist (send_delta (setup job) d o s) ≡ gist s
  gist-send_delta (some (c ∷ d)) (some o) s = refl
  gist-send_delta (some (c ∷ d)) none s = refl
  gist-send_delta (some []) o s = refl
  gist-send_delta none o s = refl

  gist-send_fed : (f : Fed) (s : Emitter) → gist (send_fed (setup job) f s) ≡ gist s
  unfolding send_fed open_fc
  gist-send_fed f s =
      gist-send_delta f.delta _ _
      ∙ by_new (wants_item (setup job) f s && not (is_open_for f.call.id s.fc_open))
    where
      by_new :
          (b : Bool)
          → gist (if b then open_fc (setup job) f.call (close_open (setup job) s) else s) ≡ gist s
      by_new true = gist-close s
      by_new false = refl

  gist-send_call :
      (tc : ChatToolCall) (s : Emitter)
      → gist (send_call (setup job) tc s) ≡ record (gist s) { agg = (feed s.agg tc).0 }
  unfolding send_call
  gist-send_call tc s = by_fed (feed s.agg tc).0 (feed s.agg tc).1
    where
      by_fed :
          (agg : ToolAgg) (fed : Option Fed)
          → gist (elim fed [
            | none ↦ record s { agg = agg }
            | some f ↦ send_fed (setup job) f (record s { agg = agg })
          ])
            ≡ record (gist s) { agg = agg }
      by_fed agg none = refl
      by_fed agg (some f) = gist-send_fed f (record s { agg = agg })

  gist-send_calls :
      (tcs : List ChatToolCall) (s : Emitter)
      → gist (send_calls (setup job) tcs s) ≡ record (gist s) { agg = feed_all s.agg tcs }
  unfolding send_calls
  gist-send_calls [] s = refl
  gist-send_calls (tc ∷ tcs) s =
      gist-send_calls tcs (send_call (setup job) tc s)
      ∙ ap (λ (c : Collected). record c { agg = feed_all c.agg tcs }) (gist-send_call tc s)

  gist-unless_text :
      (d : Text) (s : Emitter)
      → gist (unless_nil (setup job) (send_text (setup job)) d s)
        ≡ record (gist s) { texts = s.text ++ d }
  gist-unless_text [] s = ap (λ t. record (gist s) { texts = t }) (sym (append-nil s.text))
  gist-unless_text (c ∷ d) s = gist-send_text (c ∷ d) s

  gist-unless_thinking :
      (d : Text) (s : Emitter)
      → gist (unless_nil (setup job) (send_thinking (setup job)) d s)
        ≡ record (gist s) { think = s.think ++ d }
  gist-unless_thinking [] s = ap (λ t. record (gist s) { think = t }) (sym (append-nil s.think))
  gist-unless_thinking (c ∷ d) s = gist-send_thinking (c ∷ d) s

  gist-send_message :
      (m : ChatResponse) (s : Emitter)
      → gist (send_message (setup job) m s) ≡ collect_message job m (gist s)
  unfolding send_message
  gist-send_message m s =
      gist-send_calls m.delta_tool_calls _
      ∙ ap (λ (c : Collected). record c { agg = feed_all c.agg m.delta_tool_calls })
          (gist-unless_text m.delta_text _
            ∙ ap (λ (c : Collected). record c { texts = c.texts ++ m.delta_text })
                (gist-unless_thinking m.delta_thinking s))

  abbrev pub gist_of : Emitter × LoopEnd → Collected × LoopEnd
  gist_of (s, e) = (gist s, e)

  gist-resume :
      (rest : Emitter → Emitter × LoopEnd) (rest' : Collected → Collected × LoopEnd) (s : Emitter)
      (u : Try (Option Fields))
      → ((t : Emitter) → gist_of (rest t) ≡ rest' (gist t))
      → gist_of (resume (setup job) rest s u) ≡ go_on job rest' (gist s) u
  gist-resume rest rest' s (raised e) h = refl
  gist-resume rest rest' s (done u) h = h (record s { usage = u })

  counted :
      (m : ChatResponse) (ys : List Yield) (s : Emitter) (c : Collected)
      → gist s ≡ c
      → ((t : Emitter) → gist_of (send_yields (setup job) ys t) ≡ collect_yields job ys (gist t))
      → gist_of (resume (setup job) (send_yields (setup job) ys) s (add_usage job.lower s.usage m))
        ≡ go_on job (collect_yields job ys) c (add_usage job.lower c.usage m)
  counted m ys s c e h =
      gist-resume (send_yields (setup job) ys) (collect_yields job ys) s
        (add_usage job.lower s.usage m) h
      ∙ ap (λ (x : Collected). go_on job (collect_yields job ys) x (add_usage job.lower x.usage m))
          e

  pub gist-send_yields :
      (ys : List Yield) (s : Emitter)
      → gist_of (send_yields (setup job) ys s) ≡ collect_yields job ys (gist s)
  unfolding send_yields collect_yields
  gist-send_yields [] s = refl
  gist-send_yields (from r (failed e) ∷ ys) s = refl
  gist-send_yields (from_none (failed e) ∷ ys) s = refl
  gist-send_yields (from r (msg m) ∷ ys) s =
      counted m ys (send_message (setup job) m (with_account s r)) _
        (gist-send_message m (with_account s r)) (gist-send_yields ys)
  gist-send_yields (from_none (msg m) ∷ ys) s =
      counted m ys (send_message (setup job) m s) _ (gist-send_message m s) (gist-send_yields ys)

  pub rows-end_stream :
      (o : Outcome) (s : Emitter) (e : LoopEnd)
      → o ≢ disconnected
      → (end_stream job o (s, e)).rows ≡ (answer_of job o (gist s, e)).rows
  unfolding end_stream answer_of send_failure send_response
  rows-end_stream returned s (at_error e) h =
      ap (λ (c : Collected). failed_row e c.usage c.account ∷ []) (gist-close s)
  rows-end_stream out_of_fuel s (at_error e) h =
      ap (λ (c : Collected). failed_row e c.usage c.account ∷ []) (gist-close s)
  rows-end_stream disconnected s e h = absurd (h refl)
  rows-end_stream returned s (crashed e) h = refl
  rows-end_stream out_of_fuel s (crashed e) h = refl
  rows-end_stream returned s through h =
      ap (λ (c : Collected). ok_row c.usage c.account ∷ []) (gist-close s)
  rows-end_stream out_of_fuel s through h =
      ap (λ (c : Collected). ok_row c.usage c.account ∷ []) (gist-close s)
