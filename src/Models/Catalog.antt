-- ===== src/Models/Catalog.antt =====
-- The catalog of devin_proxy/models.py: the snapshot, its listing, and a family's default.
use devin_proxy.Prelude.{
  ℕ, suc, Text, codes, Bool, true, false, Option, none, some, List, [], ◌∷◌, Dict, lookup, insert,
  strip, if◌then◌else◌, or_else, text_eq, nat_eq, elem, set_add, length, map, keep, ltb, nat_beq,
  text_le, text_beq, ◌&&◌, ◌||◌, ◌==◌, not, is_empty,
}
use devin_proxy.Data.{Json}
use devin_proxy.Models.Names.{Family, families, find, family_of, split_effort, norm_fam, efforts}
use devin_proxy.Models.Settings.{Settings, hidden_models, family_efforts}

-- A model of the snapshot: the columns that decide something (the others are shown only).
pub record ModelInfo : Type 0 where
  pub family_slug : Option Text
  pub alias : Option Text
  pub max_output : Option ℕ
  pub accounts : List ℕ
  pub url : Bool

-- `_remote["models"]`
abbrev pub Models : Type 0
Models = Dict Text ModelInfo

abbrev pub uids : Models → List Text
uids = map (λ (m : Text × ModelInfo). m.0)

pub record Entry : Type 0 where
  pub uid : Text
  pub family : Text
  pub effort : Option Text
  pub order : ℕ
  pub max_output : Option ℕ
  pub remote_accounts : ℕ
  pub url : Bool
  pub hidden : Bool

abbrev pub distinct : List ℕ → List ℕ
distinct [] = []
distinct (i ∷ is) = set_add i (distinct is)

-- `_entry`, and what `entries` adds to it
unfoldable pub entry : List Text → Text × ModelInfo → Entry
unfolding split_effort family_of
entry hid (u, m) =
    let fam = family_of u m.family_slug in
    record {
      uid = u;
      family = fam.prefix;
      effort = (split_effort u).1;
      order = fam.order;
      max_output = m.max_output;
      remote_accounts = length (distinct m.accounts);
      url = m.url;
      hidden = elem u hid;
    }

abbrev pub place_of : Text → List Text → ℕ
place_of e [] = 0
place_of e (x ∷ xs) = if x == e then 0 else suc (place_of e xs)

-- `_eff_idx`
abbrev pub eff_idx : Option Text → ℕ
eff_idx none = length efforts
eff_idx (some e) = place_of e efforts

-- The order of the sort key (order, effort, uid).
unfoldable pub entry_le : Entry → Entry → Bool
entry_le a b =
    ltb a.order b.order
    || (nat_beq a.order b.order
        && (ltb (eff_idx a.effort) (eff_idx b.effort)
            || (nat_beq (eff_idx a.effort) (eff_idx b.effort) && text_le a.uid b.uid)))

unfoldable pub insert_entry : Entry → List Entry → List Entry
unfolding entry_le
insert_entry e [] = e ∷ []
insert_entry e (f ∷ fs) = if entry_le e f then e ∷ f ∷ fs else f ∷ insert_entry e fs

unfoldable pub sort_entries : List Entry → List Entry
unfolding insert_entry
sort_entries [] = []
sort_entries (e ∷ es) = insert_entry e (sort_entries es)

abbrev pub text_option_beq : Option Text → Option Text → Bool
text_option_beq none none = true
text_option_beq (some a) (some b) = a == b
text_option_beq _ _ = false

-- The first entry whose effort is the first of the wanted efforts that an entry has.
unfoldable pub first_effort : List (Option Text) → List Entry → Option Text
first_effort [] [] = none
first_effort [] (e ∷ es) = some e.uid
first_effort (w ∷ ws) es =
    let rest = first_effort ws es in
    elim (find (λ (e : Entry). text_option_beq e.effort w) es) [ some e ↦ some e.uid | none ↦ rest ]

module _ (lower : Text → Text) (str_of : Json → Text) (s : Settings) (models : Models) where
  unfoldable pub entries : Bool → List Entry
  unfolding entry sort_entries
  entries include_hidden =
      let hid = hidden_models lower str_of s in
      sort_entries (
        map (entry hid)
          (keep (λ (m : Text × ModelInfo). include_hidden || not (elem m.0 hid)) models))

  default_of : Option Family → Text
  default_of none = codes "medium"
  default_of (some f) = f.default_effort

  -- The efforts that a family's default may have, the first choice first.
  unfoldable pub wanted_efforts : Text → Option Text → List (Option Text)
  unfolding default_of
  wanted_efforts n prefer =
      lookup n (family_efforts lower str_of s)
      ∷ some (or_else prefer (default_of (find (λ (f : Family). f.prefix == n) families)))
      ∷ some (codes "medium")
      ∷ []

  unfoldable pub members : Text → List Entry
  unfolding entries
  members n = keep (λ (e : Entry). e.family == n) (entries false)

  unfoldable pub family_default : Text → Option Text → Option Text
  unfolding first_effort wanted_efforts members
  family_default name prefer =
      let n = norm_fam (strip name) in
      if is_empty n then none else first_effort (wanted_efforts n prefer) (members n)

  -- `max_output_for`
  unfoldable pub max_output_for : Text → Option ℕ
  unfolding entries
  max_output_for uid = elim (find (λ (e : Entry). e.uid == uid) (entries true)) [
    | none ↦ none
    | some e ↦ e.max_output
  ]

-- `_remote_aliases`: the first model that names an alias gives its family.
unfoldable pub remote_aliases : Dict Text Text → Models → Dict Text Text
remote_aliases out [] = out
remote_aliases out ((u, m) ∷ ms) =
    let a = or_else m.alias [] in
    let fam = or_else m.family_slug [] in
    elim (lookup a out) [
      | some f ↦ remote_aliases out ms
      | none ↦
          if text_beq a [] || text_beq fam []
          then remote_aliases out ms
          else remote_aliases (insert a fam out) ms
    ]
