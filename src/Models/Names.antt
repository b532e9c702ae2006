-- ===== src/Models/Names.antt =====
-- Model names in devin_proxy/models.py: effort suffixes, families and builtin aliases.
use devin_proxy.Prelude.{
  ℕ, Text, codes, Bool, Option, none, some, List, [], ◌∷◌, ◌++◌, Dict, lookup, elem, map, nat_beq,
  starts_with, if◌then◌else◌, or_else, text_eq, text_beq, ◌||◌, ◌==◌,
}

-- `DEFAULT_UID`
abbrev pub default_const : Text
default_const = codes "claude-sonnet-5-medium"

-- `EFFORTS`
abbrev pub efforts : List Text
efforts =
    codes "none" ∷ codes "low" ∷ codes "medium" ∷ codes "high" ∷ codes "xhigh" ∷ codes "max" ∷ []

-- `EFFORT_SUFFIX`
abbrev pub effort_suffixes : Dict Text Text
effort_suffixes =
    (codes "minimal", codes "none")
    ∷ (codes "none", codes "none")
    ∷ (codes "low", codes "low")
    ∷ (codes "medium", codes "medium")
    ∷ (codes "high", codes "high")
    ∷ (codes "xhigh", codes "xhigh")
    ∷ (codes "max", codes "max")
    ∷ []

unfoldable pub effort_suffix : Text → Option Text
unfolding lookup text_beq
effort_suffix e = lookup e effort_suffixes

-- `s.rpartition(sep)`, for a separator that occurs
unfoldable pub rpartition : ℕ → Text → Option (Text × Text)
rpartition sep [] = none
rpartition sep (c ∷ s) = at_char c s (rpartition sep s)
  where
    at_char : ℕ → Text → Option (Text × Text) → Option (Text × Text)
    at_char c s none = if nat_beq c sep then some ([], s) else none
    at_char c s (some (b, t)) = some (c ∷ b, t)

-- `s.partition(sep)` without the separator
unfoldable pub partition : ℕ → Text → Text × Text
partition sep [] = ([], [])
partition sep (c ∷ s) =
    let rest = partition sep s in if nat_beq c sep then ([], s) else (c ∷ rest.0, rest.1)

abbrev pub split_at : Text → Option (Text × Text) → Text × Option Text
split_at uid none = (uid, none)
split_at uid (some ([], t)) = (uid, none)
split_at uid (some (c ∷ b, t)) = if elem t efforts then (c ∷ b, some t) else (uid, none)

unfoldable pub split_effort : Text → Text × Option Text
unfolding rpartition
split_effort uid = split_at uid (rpartition b'-' uid)

-- `_norm_fam`
abbrev pub norm_fam : Text → Text
norm_fam = map (λ c. if nat_beq c b'.' then b'-' else c)

pub record Family : Type 0 where
  pub prefix : Text
  pub default_effort : Text
  pub order : ℕ

abbrev family : Text → Text → ℕ → Family
family p e i = record { prefix = p; default_effort = e; order = i }

-- `_FAM_SORT`: the longest prefix first, each with its place.
abbrev pub families : List Family
families =
    family (codes "swe-1-7-lightning") (codes "medium") 0
    ∷ family (codes "claude-fable-5-1") (codes "medium") 1
    ∷ family (codes "gemini-3-8-flash") (codes "medium") 2
    ∷ family (codes "claude-sonnet-5") (codes "medium") 3
    ∷ family (codes "claude-opus-5") (codes "high") 4
    ∷ family (codes "gpt-5-6-luna") (codes "medium") 5
    ∷ family (codes "gpt-5-6-sol") (codes "medium") 6
    ∷ family (codes "swe-1-7") (codes "medium") 7
    ∷ family (codes "swe-2") (codes "high") 8
    ∷ []

-- `next((x for x in families if p(x)), None)`
abbrev pub find {ℓ} : {A : Type ℓ} → (A → Bool) → List A → Option A
find p [] = none
find p (x ∷ xs) = if p x then some x else find p xs

-- The family of a uid: the upstream's slug, or the uid without its effort.
unfoldable pub family_of : Text → Option Text → Family
unfolding split_effort
family_of uid slug =
    let fam =
      or_else (some (norm_fam (or_else slug []))) (or_else (some (split_effort uid).0) uid) in
    place fam (find (λ f. (fam == f.prefix) || starts_with fam (f.prefix ++ codes "-")) families)
  where
    place : Text → Option Family → Family
    place fam none = family fam (codes "medium") 999
    place fam (some f) = family fam f.default_effort f.order

pub record Alias : Type 0 where
  pub family : Text
  pub effort : Text
  pub fallback : Text

abbrev alias : Text → Text → Text → Option Alias
alias f e d = some (record { family = f; effort = e; fallback = d })

-- `ALIAS_DEFS`
abbrev pub alias_defs : Dict Text (Option Alias)
alias_defs =
    (
      codes "claude",
      alias (codes "claude-sonnet-5") (codes "medium") (codes "claude-sonnet-5-medium"),
    )
    ∷ (
      codes "sonnet",
      alias (codes "claude-sonnet-5") (codes "medium") (codes "claude-sonnet-5-medium"),
    )
    ∷ (codes "opus", alias (codes "claude-opus-5") (codes "high") (codes "claude-opus-5-high"))
    ∷ (
      codes "gemini",
      alias (codes "gemini-3-8-flash") (codes "medium") (codes "gemini-3-8-flash-medium"),
    )
    ∷ (codes "gpt", alias (codes "gpt-5-6-sol") (codes "medium") (codes "gpt-5-6-sol-medium"))
    ∷ (codes "codex", alias (codes "gpt-5-6-sol") (codes "medium") (codes "gpt-5-6-sol-medium"))
    ∷ (codes "swe", alias (codes "swe-2") (codes "high") (codes "swe-2-high"))
    ∷ (codes "default", none)
    ∷ (codes "auto", none)
    ∷ []

-- `_DEFAULT_PREF`
abbrev pub default_pref : List Text
default_pref =
    codes "claude-sonnet-5" ∷ codes "gpt-5-6-sol" ∷ codes "swe-2" ∷ codes "gemini-3-8-flash" ∷ []
