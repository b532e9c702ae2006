-- ===== src/Tests/Models.antt =====
-- Inputs for the theorems about devin_proxy/models.py and about the errors of a trailer.
use devin_proxy.Prelude.{
  ℕ, Text, codes, true, false, ◌≡◌, ◌↔◌, ◌⊎◌, refl, Option, none, some, List, [], ◌∷◌, ◌++◌, elem,
  is_empty, lookup, text_beq, text_eq, nat_eq, strip, starts_with, contains, or_else,
}
use devin_proxy.Data.{
  Json, ErrDict, str, obj, field, end, done, raised, plain_error, upstream_error,
}
use devin_proxy.Accounts.Failure.{dict, is_hard_failure}
use devin_proxy.Upstream.Frames.{Bytes}
use devin_proxy.Upstream.Chat.{
  is_account, trailer_scope, trailer_error, is_hard_failure-trailer_error,
}
use devin_proxy.Models.Names.{efforts, effort_suffix, split_effort}
use devin_proxy.Models.Settings.{Settings, hidden_models, family_efforts}
use devin_proxy.Models.Catalog.{ModelInfo, Models, entries, family_default}
use devin_proxy.Models.Route.{known, apply_effort, default_uid, served_by}
use devin_proxy.Models.Efforts.{split_effort_iff, apply_effort-IsAllowed}
use devin_proxy.Models.Defaults.{IsListed, family_default-IsListed, default_uid-IsListed}
use devin_proxy.Models.Sync.{Source, sync}
use devin_proxy.Models.Served.{
  accounts_of, listed_by, accounts_of-sync, served_by-IsServed, IsServed,
}

abbrev same : Text → Text
same t = t

abbrev shown : Json → Text
shown j = []

abbrev settings : Settings
settings = record {
  model_aliases = none;
  family_efforts_json = none;
  alias_hide = none;
  model_hide = none;
  default_effort_text = [];
  default_model_text = [];
}

abbrev info : List ℕ → ModelInfo
info as' = record {
  family_slug = none;
  alias = none;
  max_output = some 5;
  accounts = as';
  url = false;
}

abbrev models : Models
models = (codes "swe-2-high", info (1 ∷ [])) ∷ (codes "swe-2-low", info (2 ∷ [])) ∷ []

split_effort_iff_example :
    (split_effort (codes "swe-2-high") ≡ (codes "swe-2", some (codes "high"))) ↔ (
      (codes "swe-2-high" ≡ codes "swe-2" ++ b'-' ∷ codes "high")
      × (elem (codes "high") efforts ≡ true)
      × (is_empty (codes "swe-2") ≡ false))
split_effort_iff_example = split_effort_iff (codes "swe-2-high") (codes "swe-2") (codes "high")

apply_effort-IsAllowed_example :
    let r = apply_effort same shown settings models (codes "swe-2-high") (some (codes "low")) in
    let listed = known same shown settings models in
    (r ≡ codes "swe-2-high")
    ⊎ ((suf : Text) × (effort_suffix (same (strip (or_else (some (codes "low")) []))) ≡ some suf)
        × (r ≡ (split_effort (codes "swe-2-high")).0 ++ codes "-" ++ suf)
        × ((is_empty listed ≡ true) ⊎ (elem r listed ≡ true)))
apply_effort-IsAllowed_example =
    apply_effort-IsAllowed same shown settings models (codes "swe-2-high") (some (codes "low"))

family_default_runs :
    family_default same shown settings models (codes "swe-2") none ≡ some (codes "swe-2-high")
unfolding family_default strip hidden_models text_beq starts_with lookup family_efforts
family_default_runs = refl

family_default-IsListed_example : IsListed same shown settings models (codes "swe-2-high")
family_default-IsListed_example =
    family_default-IsListed same shown settings models (codes "swe-2") none (codes "swe-2-high")
      family_default_runs

default_uid-IsListed_example :
    IsListed same shown settings models (default_uid same shown settings models)
unfolding entries strip hidden_models text_beq starts_with
default_uid-IsListed_example = default_uid-IsListed same shown settings models refl refl

abbrev sources : List Source
sources =
    record { id = 1; name = codes "a"; answer = done ((codes "m", info []) ∷ []) }
    ∷ record { id = 2; name = codes "b"; answer = raised (codes "down") }
    ∷ []

accounts_of-sync_example :
    elem 1 (accounts_of (codes "m") (sync 9 sources none).0) ≡ listed_by 1 (codes "m") sources
accounts_of-sync_example = accounts_of-sync 9 1 (codes "m") sources none

served_by_runs : served_by (codes "swe-2-low" ∷ []) models ≡ some (2 ∷ [], 2 ∷ 1 ∷ [])
unfolding served_by text_beq
served_by_runs = refl

served_by-IsServed_example :
    IsServed (codes "swe-2-low" ∷ []) models (served_by (codes "swe-2-low" ∷ []) models)
served_by-IsServed_example = served_by-IsServed (codes "swe-2-low" ∷ []) models

abbrev loads : Bytes → Option Json
loads b =
    some (obj (field (codes "error") (obj (field (codes "message") (str (codes "quota")) end)) end))

abbrev quota_error : ErrDict
quota_error = plain_error upstream_error (codes "quota")

trailer_error_runs : trailer_error same shown (λ j. none) loads same [] ≡ some quota_error
unfolding trailer_error text_beq contains starts_with
trailer_error_runs = refl

is_hard_failure-trailer_error_example :
    is_hard_failure same (dict quota_error)
    ≡ is_account (trailer_scope same shown (λ j. none) loads same [])
is_hard_failure-trailer_error_example =
    is_hard_failure-trailer_error same shown (λ j. none) loads same [] quota_error
      trailer_error_runs
