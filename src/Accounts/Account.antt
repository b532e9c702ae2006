-- ===== src/Accounts/Account.antt =====
-- The class `Account` of devin_proxy/accounts.py, and the row of the table `accounts` behind it. A
-- time is a number of ticks, 1000 to a second; a column that is NULL is `none`.
use devin_proxy.Prelude.{
  ℕ, Text, codes, Bool, not, ◌&&◌, ◌||◌, Option, none, some, List, [], ◌∷◌, ◌++◌, elem, any, keep,
  set_add, is_empty, ltb, leb, nat_beq, starts_with, contains, join, strip, split_on, count_char,
  sort_texts, or_else, text_eq, if◌then◌else◌,
}

abbrev pub second : ℕ
second = 1000

abbrev pub default_api_server : Text
default_api_server = codes "https://server.codeium.com"

abbrev pub default_webapp : Text
default_webapp = codes "https://app.devin.ai"

abbrev pub default_api_url : Text
default_api_url = codes "https://api.devin.ai"

-- A row of the table `accounts`.
pub record Row : Type 0 where
  pub id : ℕ
  pub name : Option Text
  pub email : Option Text
  pub token : Text
  pub api_server_url : Option Text
  pub devin_webapp_host : Option Text
  pub devin_api_url : Option Text
  pub source : Option Text
  pub plan : Option Text
  pub created : ℕ
  pub disabled : ℕ
  pub fail_count : Option ℕ
  pub consecutive_fails : Option ℕ
  pub cooldown_until : Option ℕ
  pub last_error : Option Text
  pub last_used : Option ℕ
  pub last_ok : Option ℕ
  pub req_count : Option ℕ
  pub max_concurrent : Option ℕ
  pub models : Option Text
  pub quota_json : Option Text
  pub quota_fetched : Option ℕ
  pub quota_limit_pct : Option ℕ

-- An `Account` object; the set of models is a list without repetitions.
pub record Account : Type 0 where
  pub id : ℕ
  pub name : Option Text
  pub email : Option Text
  pub token : Text
  pub api_server_url : Text
  pub webapp : Text
  pub api_url : Text
  pub source : Option Text
  pub plan : Option Text
  pub created : ℕ
  pub disabled : Bool
  pub fail_count : ℕ
  pub consecutive_fails : ℕ
  pub cooldown_until : ℕ
  pub last_error : Option Text
  pub last_used : Option ℕ
  pub last_ok : Option ℕ
  pub req_count : ℕ
  pub max_concurrent : ℕ
  pub models : List Text
  pub in_flight : ℕ
  pub quota_json : Option Text
  pub quota_fetched : ℕ
  pub quota_limit_pct : ℕ

-- `n or 0`
abbrev pub or_zero : Option ℕ → ℕ
or_zero none = 0
or_zero (some n) = n

unfoldable pub normalize_token : Text → Text
unfolding strip count_char starts_with
normalize_token token =
    let t = strip token in
    if not (contains t (codes "$")) && nat_beq (count_char b'.' t) 2 && starts_with t (codes "eyJ")
    then codes "devin-session-token$" ++ t
    else t

to_set : List Text → List Text
to_set [] = []
to_set (m ∷ ms) = let rest = to_set ms in set_add m rest

-- `{m for m in (r["models"] or "").split(",") if m}`
unfoldable pub models_of : Option Text → List Text
unfolding to_set split_on
models_of column = to_set (keep (λ m. not (is_empty m)) (split_on b',' (or_else column [])))

-- `_models_text` of devin_proxy/store.py on a text
unfoldable pub models_text : Option Text → Option Text
unfolding split_on strip join
models_text none = none
models_text (some t) = joined (keep (λ m. not (is_empty m)) (stripped (split_on b',' t)))
  where
    stripped : List Text → List Text
    stripped [] = []
    stripped (m ∷ ms) = strip m ∷ stripped ms

    joined : List Text → Option Text
    joined [] = none
    joined (m ∷ ms) = some (join (codes ",") (m ∷ ms))

-- `",".join(sorted(self.models)) or None`
unfoldable pub models_column : List Text → Option Text
unfolding join sort_texts
models_column [] = none
models_column (m ∷ ms) = some (join (codes ",") (sort_texts (m ∷ ms)))

-- `Account.from_row`
unfoldable pub from_row : Row → Account
unfolding normalize_token models_of
from_row r = record {
  id = r.id;
  name = r.name;
  email = r.email;
  token = normalize_token r.token;
  api_server_url = or_else r.api_server_url default_api_server;
  webapp = or_else r.devin_webapp_host default_webapp;
  api_url = or_else r.devin_api_url default_api_url;
  source = r.source;
  plan = r.plan;
  created = r.created;
  disabled = not (nat_beq r.disabled 0);
  fail_count = or_zero r.fail_count;
  consecutive_fails = or_zero r.consecutive_fails;
  cooldown_until = or_zero r.cooldown_until;
  last_error = r.last_error;
  last_used = r.last_used;
  last_ok = r.last_ok;
  req_count = or_zero r.req_count;
  max_concurrent = or_zero r.max_concurrent;
  models = models_of r.models;
  in_flight = 0;
  quota_json = r.quota_json;
  quota_fetched = or_zero r.quota_fetched;
  quota_limit_pct = or_zero r.quota_limit_pct;
}

-- `Account.persist`: the columns that `store.update_account` is given.
unfoldable pub persisted : Account → Row → Row
unfolding models_text models_column
persisted a r = record r {
  name = a.name;
  email = a.email;
  plan = a.plan;
  disabled = if a.disabled then 1 else 0;
  fail_count = some a.fail_count;
  consecutive_fails = some a.consecutive_fails;
  cooldown_until = some a.cooldown_until;
  last_error = a.last_error;
  last_used = a.last_used;
  last_ok = a.last_ok;
  req_count = some a.req_count;
  max_concurrent = some a.max_concurrent;
  models = models_text (models_column a.models);
  quota_json = a.quota_json;
  quota_fetched = some a.quota_fetched;
  quota_limit_pct = some a.quota_limit_pct;
}

-- `self.name or self.email or f"acct-{self.id}"`, given the decimal numeral of the id
unfoldable pub display : (ℕ → Text) → Account → Text
display decimal a = or_else a.name (or_else a.email (codes "acct-" ++ decimal a.id))

unfoldable pub serves : Account → List Text → Bool
serves a wanted = is_empty a.models || is_empty wanted || any (λ m. elem m wanted) a.models

unfoldable pub at_cap : Account → Bool
at_cap a = not (nat_beq a.max_concurrent 0) && leb a.max_concurrent a.in_flight

pub data State : Type 0 where
  disabled cooldown ready : State

-- `state` in `Account.public`
unfoldable pub state : ℕ → Account → State
state now a =
    if a.disabled then State.disabled else if ltb now a.cooldown_until then cooldown else ready
