-- ===== src/Models/Efforts.antt =====
-- Effort suffixes of model names.
use devin_proxy.Prelude.{
  ℕ, Text, codes, Bool, true, false, ◌≡◌, refl, ap, ◌↔◌, ◌⊎◌, inl, inr, Option, none, some, List,
  [], ◌∷◌, ◌++◌, All, subst, sym, ◌∙◌, Option-cases, nat_beq_iff, text_beq, text_beq_iff, text_eq,
  elem, Bool-cases, if◌then◌else◌, arith, ◌||◌, is_empty, strip, or_else,
}
use devin_proxy.Data.{Json}
use devin_proxy.Models.Names.{efforts, effort_suffix, rpartition, split_at, split_effort}
use devin_proxy.Models.Settings.{Settings}
use devin_proxy.Models.Catalog.{Models}
use devin_proxy.Models.Route.{known, apply_effort, variant}

rpartition-some : (sep : ℕ) (s b t : Text) → rpartition sep s ≡ some (b, t) → s ≡ b ++ sep ∷ t
unfolding rpartition
rpartition-some sep [] b t h = cc
rpartition-some sep (c ∷ s) b t h = elim (Option-cases (rpartition sep s)) [
  | inl e ↦ ground (arith, e, nat_beq_iff c sep)
  | inr (p, e) ↦ ground (arith, e, rpartition-some sep s p.0 p.1 e)
]

rpartition-append :
    (sep : ℕ) (b t : Text) → rpartition sep t ≡ none → rpartition sep (b ++ sep ∷ t) ≡ some (b, t)
unfolding rpartition
rpartition-append sep [] t h = rw (h, (nat_beq_iff sep sep).1 refl) refl
rpartition-append sep (c ∷ b) t h = rw (rpartition-append sep b t h) refl

elem-All : (P : Text → Type 0) (e : Text) (xs : List Text) → elem e xs ≡ true → All P xs → P e
elem-All P e [] h q = cc
elem-All P e (x ∷ xs) h q = elim (Bool-cases (text_beq x e)) [
  | inl r ↦ subst P ((text_beq_iff x e).0 r) q.0
  | inr r ↦ elem-All P e xs (rw r at h) q.1
]

efforts_no_dash : (e : Text) → elem e efforts ≡ true → rpartition b'-' e ≡ none
unfolding rpartition
efforts_no_dash e h =
    elem-All (λ t. rpartition b'-' t ≡ none) e efforts h
      (refl, (refl, (refl, (refl, (refl, (refl, tt))))))

abbrev pair_of : Text → Option Text → Text × Option Text
pair_of b e = (b, e)

none-impossible : {A : Type 0} (uid base e : Text) → pair_of uid none ≡ pair_of base (some e) → A
none-impossible uid base e h = cc

same_parts :
    (uid x t base e : Text)
    → pair_of x (some t) ≡ pair_of base (some e)
    → uid ≡ x ++ b'-' ∷ t
    → elem t efforts ≡ true
    → is_empty x ≡ false
    → (uid ≡ base ++ b'-' ∷ e) × (elem e efforts ≡ true) × (is_empty base ≡ false)
same_parts uid x t base e h u m n =
    let x_base : x ≡ base = ap (λ p. p.0) h in
    let t_e : t ≡ e = some_inj (ap (λ p. p.1) h) in
    (
      subst (λ y. uid ≡ y ++ b'-' ∷ e) x_base (subst (λ y. uid ≡ x ++ b'-' ∷ y) t_e u),
      subst (λ y. elem y efforts ≡ true) t_e m,
      subst (λ y. is_empty y ≡ false) x_base n,
    )
  where
    some_inj : {a b : Text} → some a ≡ some b → a ≡ b
    some_inj h = cc

parts_of :
    (uid base e : Text) (c : ℕ) (b t : Text)
    → rpartition b'-' uid ≡ some (c ∷ b, t)
    → split_at uid (some (c ∷ b, t)) ≡ (base, some e)
    → (uid ≡ base ++ b'-' ∷ e) × (elem e efforts ≡ true) × (is_empty base ≡ false)
parts_of uid base e c b t q h = elim (Bool-cases (elem t efforts)) [
  | inl r ↦
      same_parts uid (c ∷ b) t base e (rw r at h) (rpartition-some b'-' uid (c ∷ b) t q) r refl
  | inr r ↦ none-impossible uid base e (rw r at h)
]

split_effort-parts :
    (uid base e : Text) (r : Option (Text × Text))
    → rpartition b'-' uid ≡ r
    → split_effort uid ≡ (base, some e)
    → (uid ≡ base ++ b'-' ∷ e) × (elem e efforts ≡ true) × (is_empty base ≡ false)
unfolding split_effort
split_effort-parts uid base e none q h = none-impossible uid base e (sym (ap (split_at uid) q) ∙ h)
split_effort-parts uid base e (some ([], t)) q h =
    none-impossible uid base e (sym (ap (split_at uid) q) ∙ h)
split_effort-parts uid base e (some (c ∷ b, t)) q h =
    parts_of uid base e c b t q (sym (ap (split_at uid) q) ∙ h)

split_effort-join :
    (base e : Text)
    → elem e efforts ≡ true
    → is_empty base ≡ false
    → split_effort (base ++ b'-' ∷ e) ≡ (base, some e)
unfolding split_effort
split_effort-join [] e h n = cc
split_effort-join (c ∷ b) e h n =
    ap (split_at ((c ∷ b) ++ b'-' ∷ e)) (rpartition-append b'-' (c ∷ b) e (efforts_no_dash e h))
    ∙ rw h refl

-- A uid splits into a base and an effort exactly when it is the two joined by a dash, where the
-- base is not empty and the effort is one of the list.
pub split_effort_iff :
    (uid base e : Text)
    → (split_effort uid ≡ (base, some e))
      ↔ ((uid ≡ base ++ b'-' ∷ e) × (elem e efforts ≡ true) × (is_empty base ≡ false))
split_effort_iff uid base e = (
  split_effort-parts uid base e (rpartition b'-' uid) refl,
  λ h. rw h.0 (split_effort-join base e h.1 h.2),
)

variant_cases :
    (lower : Text → Text) (str_of : Json → Text) (s : Settings) (models : Models)
    (uid base suf : Text)
    → let r = variant lower str_of s models uid base suf in
      let shown = known lower str_of s models in
      (r ≡ uid)
      ⊎ ((r ≡ base ++ codes "-" ++ suf) × ((is_empty shown ≡ true) ⊎ (elem r shown ≡ true)))
variant_cases lower str_of s models uid base suf =
    cases (is_empty (known lower str_of s models))
      (elem (base ++ codes "-" ++ suf) (known lower str_of s models)) refl refl
  where
    cases :
        (p q : Bool)
        → is_empty (known lower str_of s models) ≡ p
        → elem (base ++ codes "-" ++ suf) (known lower str_of s models) ≡ q
        → let r = if p || q then base ++ codes "-" ++ suf else uid in
          (r ≡ uid)
          ⊎ ((r ≡ base ++ codes "-" ++ suf)
              × ((is_empty (known lower str_of s models) ≡ true)
                  ⊎ (elem r (known lower str_of s models) ≡ true)))
    cases true q e f = inr (refl, inl e)
    cases false true e f = inr (refl, inr f)
    cases false false e f = inl refl

-- `apply_effort` gives the uid back, or the variant of its base with the suffix of the asked
-- effort; it gives a variant only if the catalog lists it without hiding it, or has no visible
-- model at all.
pub apply_effort-IsAllowed :
    (lower : Text → Text) (str_of : Json → Text) (s : Settings) (models : Models) (uid : Text)
    (effort : Option Text)
    → let r = apply_effort lower str_of s models uid effort in
      let shown = known lower str_of s models in
      (r ≡ uid)
      ⊎ ((suf : Text) × (effort_suffix (lower (strip (or_else effort []))) ≡ some suf)
          × (r ≡ (split_effort uid).0 ++ codes "-" ++ suf)
          × ((is_empty shown ≡ true) ⊎ (elem r shown ≡ true)))
unfolding apply_effort
apply_effort-IsAllowed lower str_of s models uid effort =
    elim (Option-cases (effort_suffix (lower (strip (or_else effort []))))) [
      | inl e ↦ inl (rw (e, apply_effort) refl)
      | inr (suf, e) ↦ elim (Option-cases (split_effort uid).1) [
        | inl f ↦ inl (rw (e, f, apply_effort) refl)
        | inr (cur, f) ↦ elim (variant_cases lower str_of s models uid (split_effort uid).0 suf) [
          | inl v ↦ inl (rw (e, f, apply_effort) v)
          | inr v ↦ inr (suf, e, rw (e, f, apply_effort) v.0, rw (e, f, apply_effort) v.1)
        ]
      ]
    ]
