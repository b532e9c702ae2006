-- ===== src/Models/Settings.antt =====
-- The admin settings that devin_proxy/models.py reads from the store's meta table.
use devin_proxy.Prelude.{
  Text, Bool, true, false, Option, none, some, List, [], ◌∷◌, Dict, insert, strip, if◌then◌else◌,
  is_empty, ◌||◌, text_eq,
}
use devin_proxy.Data.{Json, Items, Fields, str, arr, obj, nil, cons, end, field}
use devin_proxy.Models.Names.{effort_suffix, partition, norm_fam}

-- What `json.loads` gives for each setting (`none` where it raises or nothing is stored),
-- and the settings that are plain texts.
pub record Settings : Type 0 where
  pub model_aliases : Option Json
  pub family_efforts_json : Option Json
  pub alias_hide : Option Json
  pub model_hide : Option Json
  pub default_effort_text : Text
  pub default_model_text : Text

abbrev pub is_effort : Text → Bool
is_effort e = elim (effort_suffix e) [ none ↦ false | some s ↦ true ]

-- `str.lower`, and `str` of a JSON value
module _ (lower : Text → Text) (str_of : Json → Text) where
  aliases_from : Dict Text Text → Fields → Dict Text Text
  aliases_from d end = d
  aliases_from d (field k v fs) =
      if is_empty (strip k) || is_empty (strip (str_of v))
      then aliases_from d fs
      else aliases_from (insert (strip k) (strip (str_of v)) d) fs

  unfoldable pub user_aliases : Settings → Dict Text Text
  unfolding aliases_from
  user_aliases s = elim s.model_aliases [
    | none ↦ []
    | some j ↦ elim j [ obj fs ↦ aliases_from [] fs | _ ↦ [] ]
  ]

  -- "uid@effort"
  unfoldable pub alias_target : Text → Text × Option Text
  unfolding partition
  alias_target v =
      let cut = partition b'@' v in
      let eff = lower (strip cut.1) in (strip cut.0, if is_effort eff then some eff else none)

  -- `none` where `v.strip()` raises on a value that is no string.
  efforts_from : Dict Text Text → Fields → Option (Dict Text Text)
  efforts_from d end = some d
  efforts_from d (field k v fs) =
      let e = lower (strip (str_of v)) in
      if is_effort e
      then elim v [ str t ↦ efforts_from (insert (norm_fam k) (lower (strip t)) d) fs | _ ↦ none ]
      else efforts_from d fs

  unfoldable pub family_efforts : Settings → Dict Text Text
  unfolding efforts_from
  family_efforts s = elim s.family_efforts_json [
    | none ↦ []
    | some j ↦ elim j [ obj fs ↦ elim (efforts_from [] fs) [ none ↦ [] | some d ↦ d ] | _ ↦ [] ]
  ]

  unfoldable pub default_effort : Settings → Option Text
  default_effort s =
      let e = lower (strip s.default_effort_text) in if is_effort e then some e else none

  texts_of : Items → List Text
  texts_of nil = []
  texts_of (cons j js) = str_of j ∷ texts_of js

  abbrev set_of : Option Json → List Text
  set_of none = []
  set_of (some j) = elim j [ arr js ↦ texts_of js | _ ↦ [] ]

  unfoldable pub hidden_aliases : Settings → List Text
  unfolding texts_of
  hidden_aliases s = set_of s.alias_hide

  unfoldable pub hidden_models : Settings → List Text
  unfolding texts_of
  hidden_models s = set_of s.model_hide
