-- ===== src/Models/Sync.antt =====
-- The catalog's refresh in devin_proxy/models.py: fetching, merging, the snapshot.
use devin_proxy.Prelude.{
  ℕ, ◌+◌, Text, Bool, true, false, Option, none, some, List, [], ◌∷◌, ◌++◌, lookup, insert, strip,
  if◌then◌else◌, or_else, text_eq, nat_eq, set_add, length, take, ltb, is_empty, ◌&&◌, ◌||◌, not,
}
use devin_proxy.Data.{Try, done, raised}
use devin_proxy.Models.Catalog.{ModelInfo, Models}

-- `e[k] = v` where `e.get(k)` is `None`
abbrev pub fill {ℓ} : {A : Type ℓ} → Option A → Option A → Option A
fill none v = v
fill (some a) v = some a

abbrev pub new_model : ModelInfo
new_model = record {
  family_slug = none;
  alias = none;
  max_output = none;
  accounts = [];
  url = false;
}

abbrev pub found_or : {A : Type 0} → Option A → A → A
found_or none a = a
found_or (some b) a = b

-- An account, as `refresh` reads it, and what the upstream answers it.
pub record Source : Type 0 where
  pub id : ℕ
  pub name : Text
  pub answer : Try (List (Text × ModelInfo))

-- A model's columns, completed by an account that lists it.
abbrev pub merged : ℕ → ModelInfo → ModelInfo → ModelInfo
merged aid m e = record e {
  family_slug = fill e.family_slug m.family_slug;
  alias = fill e.alias m.alias;
  max_output = fill e.max_output m.max_output;
  accounts = set_add aid e.accounts;
}

-- One model that the account `aid` lists.
unfoldable pub merge_model : ℕ → Text × ModelInfo → Models → Models
merge_model aid (u, m) models =
    insert u (merged aid m (found_or (lookup u models) new_model)) models

unfoldable pub merge_models : ℕ → List (Text × ModelInfo) → Models → Models
unfolding merge_model
merge_models aid [] models = models
merge_models aid (m ∷ ms) models = merge_models aid ms (merge_model aid m models)

-- Every account in turn: one that raises leaves an error and no models.
unfoldable pub fetch_all : List Source → Models × List (Text × Text) → Models × List (Text × Text)
unfolding merge_models
fetch_all [] acc = acc
fetch_all (a ∷ rest) (models, errors) = elim a.answer [
  | done ms ↦ fetch_all rest (merge_models a.id ms models, errors)
  | raised ex ↦ fetch_all rest (models, errors ++ (a.name, take 200 ex) ∷ [])
]

-- An item of the catalog that the configured URL gives.
pub record UrlItem : Type 0 where
  pub uid : Option Text
  pub id : Option Text
  pub max_output : Option ℕ
  pub max_output_tokens : Option ℕ

abbrev pub with_item : UrlItem → ModelInfo → ModelInfo
with_item it e = record e {
  url = true;
  max_output = fill (fill e.max_output it.max_output) it.max_output_tokens;
}

unfoldable pub merge_item : UrlItem → Models → Models
merge_item it models =
    let uid = strip (or_else it.uid (or_else it.id [])) in
    if is_empty uid
    then models
    else insert uid (with_item it (found_or (lookup uid models) new_model)) models

unfoldable pub merge_items : List UrlItem → Models → Models
unfolding merge_item
merge_items [] models = models
merge_items (it ∷ its) models = merge_items its (merge_item it models)

-- `_fetch_url`: `none` where no URL is set; the error's text if there is one
unfoldable pub fetch_url : Option (Try (List UrlItem)) → Models → Models × Option Text
unfolding merge_items
fetch_url none models = (models, none)
fetch_url (some (done its)) models = (merge_items its models, none)
fetch_url (some (raised ex)) models = (models, some (take 300 ex))

-- `_remote` and `_refreshing`
pub record Snapshot : Type 0 where
  pub ts : ℕ
  pub models : Models
  pub errors : List (Text × Text)
  pub url_err : Option Text
  pub refreshing : Bool

abbrev pub stale : ℕ → ℕ → Snapshot → Bool
stale ttl now s = ltb (s.ts + ttl) now

pub data Refreshed : Type 0 where
  running : Refreshed
  fresh : ℕ → ℕ → Refreshed
  synced : Bool → ℕ → List (Text × Text) → Option Text → ℕ → Refreshed

-- The sync proper, from an empty catalog.
unfoldable pub sync :
    ℕ → List Source → Option (Try (List UrlItem)) → Models × List (Text × Text) × Option Text
unfolding fetch_all fetch_url
sync now accounts url =
    let fetched = fetch_all accounts ([], []) in
    let merged = fetch_url url fetched.0 in (merged.0, fetched.1, merged.1)

unfoldable pub refresh :
    ℕ → ℕ → Bool → List Source → Option (Try (List UrlItem)) → Snapshot → Snapshot × Refreshed
unfolding sync
refresh ttl now force accounts url s =
    let got = sync now accounts url in
    if s.refreshing
    then (s, running)
    else if not force && not (stale ttl now s)
    then (s, fresh s.ts (length s.models))
    else (
      record { ts = now; models = got.0; errors = got.1; url_err = got.2; refreshing = false },
      synced (not (is_empty got.0) || is_empty got.1) (length got.0) got.1 got.2 now,
    )
