-- ===== src/App/Driver/Passes.antt =====
-- What a pass over a stream has sent by the time it ends.
use devin_proxy.Prelude.{
  ℕ, Text, Bool, true, false, ◌≡◌, ◌≢◌, refl, ap, ◌∙◌, Option, none, some, List, [], ◌∷◌, ◌++◌,
  arith, Bool-cases, Option-cases, inl, inr,
}
use devin_proxy.Data.{ErrDict, exception, plain_error, ChatResponse, Event, msg, failed}
use devin_proxy.Accounts.Pool.State.{Pool}
use devin_proxy.App.Driver.Attempt.{
  Stream, Ending, error_ending, clean, terminal, broken, Pass, consume, yields_of, is_rejection,
  wants_sanitizing, Tried, sent_live, run_passes, is_broken,
}

abbrev pub is_terminal : Ending → Bool
is_terminal (terminal e) = true
is_terminal _ = false

module _ (track : ChatResponse → Option Text) where
  -- Once content has come, a live pass has no terminal error.
  live-got :
      (es : List Event) (x : Option Text)
      → is_terminal (consume track true true es x).ending ≡ false
  unfolding consume
  live-got [] none = refl
  live-got [] (some e) = refl
  live-got (failed e ∷ es) x = refl
  live-got (msg m ∷ es) x = elim (Option-cases (track m)) [
    | inl q ↦ rw (q, consume, is_terminal) (live-got es x)
    | inr (t, q) ↦ rw (q, consume, is_terminal) refl
  ]

  -- A live pass that ends by a terminal error has sent nothing.
  live-terminal :
      (es : List Event) (x : Option Text)
      → is_terminal (consume track true false es x).ending ≡ true
      → (consume track true false es x).msgs ≡ []
  unfolding consume
  live-terminal [] x h = refl
  live-terminal (failed e ∷ es) x h = refl
  live-terminal (msg m ∷ es) x h = elim (Option-cases (track m)) [
    | inl q ↦ absurd (ground (arith, live-got es x, rw (q, consume, is_terminal) at h))
    | inr (t, q) ↦ rw (q, consume) refl
  ]

  never_broken : (got : Bool) (e : ErrDict) → is_broken (error_ending false got e) ≡ false
  never_broken true e = refl
  never_broken false e = refl

  -- A buffered pass is never broken off.
  buffered-broken :
      (got : Bool) (es : List Event) (x : Option Text)
      → is_broken (consume track false got es x).ending ≡ false
  unfolding consume
  buffered-broken true [] none = refl
  buffered-broken false [] none = refl
  buffered-broken true [] (some e) = refl
  buffered-broken false [] (some e) = refl
  buffered-broken true (failed e ∷ es) x = refl
  buffered-broken false (failed e ∷ es) x = refl
  buffered-broken got (msg m ∷ es) x = elim (Option-cases (track m)) [
    | inl q ↦ rw (q, consume, is_broken) (buffered-broken true es x)
    | inr (t, q) ↦ rw (q, consume, is_broken) (never_broken got (plain_error exception t))
  ]

  -- A pass that is broken off has sent something.
  broken-msgs :
      (live : Bool) (es : List Event) (x : Option Text)
      → is_broken (consume track live false es x).ending ≡ true
      → (consume track live false es x).msgs ≢ []
  unfolding consume
  broken-msgs live [] none h = absurd (ground arith)
  broken-msgs live [] (some e) h = absurd (ground arith)
  broken-msgs live (failed e ∷ es) x h = absurd (ground arith)
  broken-msgs live (msg m ∷ es) x h = elim (Option-cases (track m)) [
    | inl q ↦ rw (q, consume) (ground arith)
    | inr (t, q) ↦ absurd (ground (arith, rw (q, consume, is_broken) at h))
  ]

  sent-terminal :
      (live : Bool) (r : ℕ) (es : List Event) (x : Option Text)
      → is_terminal (consume track live false es x).ending ≡ true
      → sent_live live r (consume track live false es x) ≡ []
  sent-terminal true r es x h = ap (yields_of r) (live-terminal es x h)
  sent-terminal false r es x h = refl

  rejection-terminal : (e : Ending) → is_rejection e ≡ true → is_terminal e ≡ true
  rejection-terminal (terminal e) h = refl
  rejection-terminal clean h = cc
  rejection-terminal (broken e) h = cc

-- What holds of the last pass of an attempt, and of what the attempt has sent.
pub record IsTried (live : Bool) (r : ℕ) (t : Tried) : Type 0 where
  pub sent : t.sent ≡ sent_live live r t.last
  pub quiet : is_terminal t.last.ending ≡ true → t.sent ≡ []
  pub cut : is_broken t.last.ending ≡ true → (live ≡ true) × (t.last.msgs ≢ [])

module _ (track : ChatResponse → Option Text) (live : Bool) (r : ℕ) where
  broken-live :
      (es : List Event) (x : Option Text)
      → is_broken (consume track live false es x).ending ≡ true
      → live ≡ true
  broken-live es x h = elim (Bool-cases live) [
    | inl e ↦ e
    | inr e ↦ absurd (ground (arith, buffered-broken track false es x, rw e at h))
  ]

  -- Both passes of an attempt obey this: a second pass is made only when nothing has been sent.
  pub run_passes-IsTried :
      (n_tools : ℕ) (first second : Stream) (p : Pool)
      → IsTried live r (run_passes track live r n_tools first second p)
  unfolding run_passes
  run_passes-IsTried n_tools first second p = elim (Bool-cases (wants_sanitizing n_tools one)) [
    | inl e ↦
        let nothing : sent_live live r one ≡ [] =
          sent-terminal track live r first.events first.raises
            (rejection-terminal track one.ending (unfold wants_sanitizing in ground arith)) in
        rw (e, run_passes)
          (record {
            sent = ap (λ l. l ++ sent_live live r two) nothing;
            quiet = λ h.
                ap (λ l. l ++ sent_live live r two) nothing
                ∙ sent-terminal track live r second.events second.raises h;
            cut = λ h. (
              broken-live second.events second.raises h,
              broken-msgs track live second.events second.raises h,
            );
          })
    | inr e ↦
        rw (e, run_passes)
          (record {
            sent = refl;
            quiet = λ h. sent-terminal track live r first.events first.raises h;
            cut = λ h. (
              broken-live first.events first.raises h,
              broken-msgs track live first.events first.raises h,
            );
          })
  ]
    where
      one : Pass
      one = consume track live false first.events first.raises

      two : Pass
      two = consume track live false second.events second.raises
