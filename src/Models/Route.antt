-- ===== src/Models/Route.antt =====
-- From a requested name to a model: aliases, defaults and efforts in devin_proxy/models.py.
use devin_proxy.Prelude.{
  ℕ, Text, codes, Bool, true, false, Option, none, some, List, [], ◌∷◌, ◌++◌, lookup, strip,
  is_empty, if◌then◌else◌, or_else, text_eq, nat_eq, elem, set_add, keep, ◌&&◌, ◌||◌, not,
}
use devin_proxy.Data.{Json}
use devin_proxy.Models.Names.{
  Alias, alias_defs, default_const, default_pref, effort_suffix, split_effort, norm_fam,
}
use devin_proxy.Models.Settings.{
  Settings, user_aliases, alias_target, family_efforts, default_effort, hidden_aliases,
  hidden_models,
}
use devin_proxy.Models.Catalog.{Models, uids, entries, family_default, remote_aliases}

-- `a or b` of optional texts
abbrev pub or_text : Option Text → Text → Text
or_text = or_else

module _ (lower : Text → Text) (str_of : Json → Text) (s : Settings) (models : Models) where
  abbrev default_for : Text → Option Text → Option Text
  default_for = family_default lower str_of s models

  -- A builtin alias: `default` stands for the default model.
  builtin : Text → Option Alias → Text
  builtin default none = default
  builtin default (some a) = or_text (default_for a.family (some a.effort)) a.fallback

  -- `_resolve` behind the user's aliases and the builtin ones
  by_catalog : Text → Text
  by_catalog n = if elem n (uids models) then n else elim (lookup n (remote_aliases [] models)) [
    | some fam ↦
        if elem n (hidden_aliases lower str_of s)
        then or_text (default_for n none) n
        else or_text (default_for fam none) n
    | none ↦ or_text (default_for n none) n
  ]

  user_target : Text → Text
  user_target t = if elem t (uids models) then t else or_text (default_for t none) t

  -- `_resolve`, with the answer for "default" and "auto"
  unfoldable pub resolve_with : Text → Text → Option Text
  unfolding builtin by_catalog user_target
  resolve_with default name =
      let n = strip name in
      if is_empty n then none else elim (lookup n (user_aliases lower str_of s)) [
        | some v ↦ some (user_target (alias_target lower str_of v).0)
        | none ↦ elim (lookup n alias_defs) [
          | some spec ↦
              if elem n (hidden_aliases lower str_of s)
              then some (by_catalog n)
              else some (builtin default spec)
          | none ↦ some (by_catalog n)
        ]
      ]

  unfoldable pub preferred : List Text → Option Text
  preferred [] = none
  preferred (fam ∷ fams) = elim (default_for fam none) [
    | some (c ∷ u) ↦ some (c ∷ u)
    | _ ↦ preferred fams
  ]

  unfoldable pub default_uid : Text
  unfolding resolve_with preferred
  default_uid = elim (strip s.default_model_text) [
    | c ∷ r ↦ or_text (resolve_with default_const (c ∷ r)) default_const
    | [] ↦ elim (preferred default_pref) [
      | some u ↦ u
      | none ↦ elim (entries lower str_of s models false) [ [] ↦ default_const | e ∷ es ↦ e.uid ]
    ]
  ]

  unfoldable pub resolve : Text → Option Text
  unfolding resolve_with default_uid
  resolve = resolve_with default_uid

  -- `_family_of_name`
  unfoldable pub family_of_name : Text → Option Text
  family_of_name n =
      if elem n (hidden_aliases lower str_of s) then some n else elim (lookup n alias_defs) [
        | some spec ↦ elim spec [ none ↦ none | some a ↦ some a.family ]
        | none ↦ elim (lookup n (remote_aliases [] models)) [ some fam ↦ some fam | none ↦ some n ]
      ]

  -- The family's own default, or the global one.
  effort_of_family : Text → Option Text
  unfolding family_of_name split_effort
  effort_of_family n = elim (family_of_name n) [
    | none ↦ default_effort lower str_of s
    | some [] ↦ default_effort lower str_of s
    | some (c ∷ fam) ↦
        elim (lookup (norm_fam (or_text (some (split_effort (c ∷ fam)).0) (c ∷ fam)))
          (family_efforts lower str_of s)) [
            | some (d ∷ e) ↦ some (d ∷ e)
            | _ ↦ default_effort lower str_of s
          ]
  ]

  abbrev is_pinned : Text → Bool
  is_pinned n = elim (split_effort n).1 [ none ↦ false | some e ↦ true ]

  -- `auto_effort` once the name is known; `pinned` tells that the request gave it.
  effort_of_name : Bool → Text → Option Text
  unfolding effort_of_family
  effort_of_name pinned n =
      if pinned && is_pinned n then none else elim (lookup n (user_aliases lower str_of s)) [
        | none ↦ effort_of_family n
        | some v ↦
            let t = alias_target lower str_of v in
            elim t.1 [
              | some e ↦ some e
              | none ↦ if pinned && is_pinned t.0 then none else effort_of_family t.0
            ]
      ]

  unfoldable pub auto_effort : Text → Option Text
  unfolding effort_of_name
  auto_effort name = elim (strip name) [
    | c ∷ r ↦ effort_of_name true (c ∷ r)
    | [] ↦ elim (strip s.default_model_text) [
      | [] ↦ default_effort lower str_of s
      | c ∷ r ↦ effort_of_name false (c ∷ r)
    ]
  ]

  abbrev pub known : List Text
  known = keep (λ u. not (elem u (hidden_models lower str_of s))) (uids models)

  -- The variant of `base` with the suffix, if the catalog allows it.
  abbrev pub variant : Text → Text → Text → Text
  variant uid base suf =
      let cand = base ++ codes "-" ++ suf in if is_empty known || elem cand known then cand else uid

  unfoldable pub apply_effort : Text → Option Text → Text
  unfolding split_effort
  apply_effort uid effort = elim (effort_suffix (lower (strip (or_else effort [])))) [
    | none ↦ uid
    | some suf ↦ elim (split_effort uid).1 [
      | none ↦ uid
      | some cur ↦ variant uid (split_effort uid).0 suf
    ]
  ]

  -- `resolve_model` of devin_proxy/app.py: the name, and the effort that the request asks for
  unfoldable pub resolve_model : Text → Option Text → Text
  unfolding resolve default_uid apply_effort auto_effort
  resolve_model name requested =
      let uid = or_text (resolve name) default_uid in
      elim requested [
        | some (c ∷ e) ↦ apply_effort uid (some (c ∷ e))
        | _ ↦ apply_effort uid (auto_effort name)
      ]

-- `set_a | set_b`
abbrev pub union : List ℕ → List ℕ → List ℕ
union xs [] = xs
union xs (y ∷ ys) = set_add y (union xs ys)

-- The accounts that advertise a wanted model, those that advertise any, and whether one was found.
unfoldable pub served : List Text → Models → List ℕ × List ℕ × Bool
served want [] = ([], [], false)
served want ((u, m) ∷ ms) =
    let rest = served want ms in
    if elem u want && not (is_empty m.accounts)
    then (union rest.0 m.accounts, union rest.1 m.accounts, true)
    else (rest.0, union rest.1 m.accounts, rest.2)

unfoldable pub served_by : List Text → Models → Option (List ℕ × List ℕ)
unfolding served
served_by want models =
    let found = served want models in if found.2 then some (found.0, found.1) else none
