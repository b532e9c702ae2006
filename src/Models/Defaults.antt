-- ===== src/Models/Defaults.antt =====
-- The model that a family or the catalog stands for.
use devin_proxy.Prelude.{
  Text, Bool, true, false, ◌≡◌, refl, subst, ◌∙◌, inl, inr, Option, none, some, List, [], ◌∷◌,
  text_eq, elem, keep, map, All, All-imp, keep-All, not, Bool-cases, Option-cases, arith, ◌==◌,
  is_empty, ==_self, strip,
}
use devin_proxy.Data.{Json}
use devin_proxy.Models.Names.{find, norm_fam}
use devin_proxy.Models.Settings.{Settings, hidden_models}
use devin_proxy.Models.Names.{default_pref}
use devin_proxy.Models.Route.{preferred, default_uid}
use devin_proxy.Models.Catalog.{
  Models, ModelInfo, Entry, uids, entry, entry_le, insert_entry, sort_entries, first_effort,
  entries, family_default, members, wanted_efforts, text_option_beq,
}

some-inj : {a b : Entry} → some a ≡ some b → a ≡ b
some-inj h = cc

false_of : (b : Bool) → not b ≡ true → b ≡ false
false_of true h = cc
false_of false h = refl

not_some : {A : Type 0} (a : Text) → none ≡ some a → A
not_some a h = cc

some_inj : {a b : Text} → some a ≡ some b → a ≡ b
some_inj h = cc

module _ {ℓ} (P : Entry → Type ℓ) where
  insert_entry-All : (e : Entry) (es : List Entry) → P e → All P es → All P (insert_entry e es)
  unfolding insert_entry
  insert_entry-All e [] p h = (p, tt)
  insert_entry-All e (f ∷ fs) p h = elim (Bool-cases (entry_le e f)) [
    | inl q ↦ rw q (p, h)
    | inr q ↦ rw q (h.0, insert_entry-All e fs p h.1)
  ]

  sort_entries-All : (es : List Entry) → All P es → All P (sort_entries es)
  unfolding sort_entries
  sort_entries-All [] h = tt
  sort_entries-All (e ∷ es) h = insert_entry-All e (sort_entries es) h.0 (sort_entries-All es h.1)

  find-All : (p : Entry → Bool) (es : List Entry) (e : Entry) → find p es ≡ some e → All P es → P e
  find-All p [] e q h = cc
  find-All p (f ∷ es) e q h = elim (Bool-cases (p f)) [
    | inl r ↦ subst P (some-inj (rw r at q)) h.0
    | inr r ↦ find-All p es e (rw r at q) h.1
  ]

  map-All : {A : Type 0} (f : A → Entry) (xs : List A) → All (λ a. P (f a)) xs → All P (map f xs)
  map-All f [] h = tt
  map-All f (x ∷ xs) h = (h.0, map-All f xs h.1)

keep-sub : {A : Type 0} (P : A → Type 0) (p : A → Bool) (xs : List A) → All P xs → All P (keep p xs)
keep-sub P p [] h = tt
keep-sub P p (x ∷ xs) h = elim (Bool-cases (p x)) [
  | inl e ↦ rw e (h.0, keep-sub P p xs h.1)
  | inr e ↦ rw e (keep-sub P p xs h.1)
]

-- Every model of a dict is under one of its keys.
in_uids : (ms : Models) → All (λ (m : Text × ModelInfo). elem m.0 (uids ms) ≡ true) ms
in_uids [] = tt
in_uids ((u, i) ∷ ms) =
    (rw (==_self u) refl, All-imp (λ m h. elem_later u m.0 (uids ms) h) ms (in_uids ms))
  where
    elem_later : (u v : Text) (us : List Text) → elem v us ≡ true → elem v (u ∷ us) ≡ true
    elem_later u v us h = ground (arith, h)

module _ (lower : Text → Text) (str_of : Json → Text) (s : Settings) (models : Models) where
  -- A model of the catalog that is not hidden.
  abbrev pub IsListed : Text → Type 0
  IsListed u = (elem u (uids models) ≡ true) × (elem u (hidden_models lower str_of s) ≡ false)

  entries-Listed : All (λ (e : Entry). IsListed e.uid) (entries lower str_of s models false)
  unfolding entries entry
  entries-Listed =
      let hid = hidden_models lower str_of s in
      let shown = keep (λ (m : Text × ModelInfo). not (elem m.0 hid)) models in
      sort_entries-All (λ (e : Entry). IsListed e.uid) (map (entry hid) shown)
        (map-All (λ (e : Entry). IsListed e.uid) (entry hid) shown
          (All-both shown
            (keep-sub (λ (m : Text × ModelInfo). elem m.0 (uids models) ≡ true)
              (λ (m : Text × ModelInfo). not (elem m.0 hid)) models (in_uids models))
            (keep-All (λ (m : Text × ModelInfo). not (elem m.0 hid)) models)))
    where
      All-both :
          (ms : Models)
          → All (λ (m : Text × ModelInfo). elem m.0 (uids models) ≡ true) ms
          → All (λ (m : Text × ModelInfo). not (elem m.0 (hidden_models lower str_of s)) ≡ true) ms
          → All (λ (m : Text × ModelInfo). IsListed m.0) ms
      All-both [] h k = tt
      All-both (m ∷ ms) h k =
          ((h.0, false_of (elem m.0 (hidden_models lower str_of s)) k.0), All-both ms h.1 k.1)

  first_effort-All :
      (P : Text → Type 0) (ws : List (Option Text)) (es : List Entry) (u : Text)
      → first_effort ws es ≡ some u
      → All (λ (e : Entry). P e.uid) es
      → P u
  unfolding first_effort
  first_effort-All P [] [] u q h = cc
  first_effort-All P [] (e ∷ es) u q h = subst P (some_inj q) h.0
  first_effort-All P (w ∷ ws) es u q h =
      elim (Option-cases (find (λ (e : Entry). text_option_beq e.effort w) es)) [
        | inl f ↦ first_effort-All P ws es u (rw (f, first_effort) at q) h
        | inr (e, f) ↦
            subst P (some_inj (rw (f, first_effort) at q)) (
              find-All (λ (e : Entry). P e.uid) (λ (e : Entry). text_option_beq e.effort w) es e f
                h)
      ]

  members-Listed :
      (n : Text) → All (λ (e : Entry). IsListed e.uid) (members lower str_of s models n)
  unfolding members
  members-Listed n =
      keep-sub (λ (e : Entry). IsListed e.uid) (λ (e : Entry). e.family == n)
        (entries lower str_of s models false) entries-Listed

  -- The uid that stands for a family is a model of the catalog that is not hidden.
  pub family_default-IsListed :
      (name : Text) (prefer : Option Text) (u : Text)
      → family_default lower str_of s models name prefer ≡ some u
      → IsListed u
  unfolding family_default
  family_default-IsListed name prefer u h = elim (Bool-cases (is_empty (norm_fam (strip name)))) [
    | inl e ↦ not_some u (rw (e, family_default) at h)
    | inr e ↦
        let n = norm_fam (strip name) in
        first_effort-All IsListed (wanted_efforts lower str_of s models n prefer)
          (members lower str_of s models n) u (rw (e, family_default) at h) (members-Listed n)
  ]

  preferred-IsListed :
      (fams : List Text) (u : Text) → preferred lower str_of s models fams ≡ some u → IsListed u
  unfolding preferred
  preferred-IsListed [] u h = not_some u h
  preferred-IsListed (f ∷ fs) u h =
      by_default (family_default lower str_of s models f none) refl (preferred-IsListed fs u)
    where
      by_default :
          (o : Option Text)
          → family_default lower str_of s models f none ≡ o
          → (preferred lower str_of s models fs ≡ some u → IsListed u)
          → IsListed u
      by_default none e ih = ih (rw (e, preferred) at h)
      by_default (some []) e ih = ih (rw (e, preferred) at h)
      by_default (some (c ∷ r)) e ih = family_default-IsListed f none u (e ∙ rw (e, preferred) at h)

  -- Where no default model is set and the catalog lists a visible model, the default model is one
  -- of the catalog that is not hidden.
  pub default_uid-IsListed :
      strip s.default_model_text ≡ []
      → is_empty (entries lower str_of s models false) ≡ false
      → IsListed (default_uid lower str_of s models)
  unfolding default_uid
  default_uid-IsListed h k = by_family (preferred lower str_of s models default_pref) refl
    where
      by_entry :
          (es : List Entry)
          → preferred lower str_of s models default_pref ≡ none
          → entries lower str_of s models false ≡ es
          → All (λ (e : Entry). IsListed e.uid) es
          → is_empty es ≡ false
          → IsListed (default_uid lower str_of s models)
      by_entry [] p f a n = cc
      by_entry (e ∷ es) p f a n = rw (h, p, f, default_uid) a.0

      by_family :
          (o : Option Text)
          → preferred lower str_of s models default_pref ≡ o
          → IsListed (default_uid lower str_of s models)
      by_family (some u) p = rw (h, p, default_uid) (preferred-IsListed default_pref u p)
      by_family none p = by_entry (entries lower str_of s models false) p refl entries-Listed k
