-- ===== src/Upstream/Errors.antt =====
-- Scopes of upstream errors: `_trailer_details` and `_err_scope` of devin_proxy/upstream.py. JSON
-- parsing and printing, `str.lower` and `float` are parameters.
use devin_proxy.Prelude.{
  ℕ, Text, codes, Bool, true, false, ◌||◌, Option, none, some, List, [], ◌∷◌, elem, any, contains,
  text_eq, text_beq, if◌then◌else◌,
}
use devin_proxy.Data.{
  Json, str, arr, obj, nil, cons, Fields, end, field, get, truthy, if_truthy, as_text,
}

pub data Scope : Type 0 where
  account soft transient : Scope

abbrev pub acct_codes : List Text
acct_codes = codes "unauthenticated" ∷ codes "permission_denied" ∷ codes "resource_exhausted" ∷ []

abbrev pub soft_codes : List Text
soft_codes =
    codes "invalid_argument"
    ∷ codes "failed_precondition"
    ∷ codes "out_of_range"
    ∷ codes "not_found"
    ∷ codes "already_exists"
    ∷ codes "unimplemented"
    ∷ []

abbrev pub transient_codes : List Text
transient_codes =
    codes "canceled"
    ∷ codes "unknown"
    ∷ codes "deadline_exceeded"
    ∷ codes "aborted"
    ∷ codes "internal"
    ∷ codes "unavailable"
    ∷ codes "data_loss"
    ∷ []

abbrev pub acct_hints : List Text
acct_hints =
    codes "quota"
    ∷ codes "limit reached"
    ∷ codes "usage paused"
    ∷ codes "unauthorized"
    ∷ codes "forbidden"
    ∷ codes "not authenticated"
    ∷ codes "rate limit"
    ∷ codes "credit"
    ∷ []

abbrev pub soft_hints : List Text
soft_hints =
    codes "context"
    ∷ codes "too long"
    ∷ codes "invalid"
    ∷ codes "bad request"
    ∷ codes "maximum"
    ∷ codes "exceed"
    ∷ codes "malformed"
    ∷ codes "parse"
    ∷ codes "too many tokens"
    ∷ []

abbrev pub transient_hints : List Text
transient_hints =
    codes "not available"
    ∷ codes "unavailable"
    ∷ codes "again later"
    ∷ codes "experiencing issues"
    ∷ codes "temporar"
    ∷ codes "overload"
    ∷ codes "internal error"
    ∷ []

-- `code in CODES`, where the code may be `None`
abbrev pub code_in : Option Text → List Text → Bool
code_in none cs = false
code_in (some c) cs = elem c cs

-- `any(s in t for s in hints)`
unfoldable pub hinted : Text → List Text → Bool
hinted t hints = any (λ s. contains t s) hints

-- `_err_scope` on a text that is in lower case
unfoldable pub scope_of : Option Text → Text → Scope
unfolding hinted
scope_of code t =
    if code_in code acct_codes || hinted t acct_hints
    then account
    else if code_in code transient_codes || hinted t transient_hints
    then transient
    else if code_in code soft_codes || hinted t soft_hints
    then soft
    else account

abbrev pub is_soft : Scope → Bool
is_soft soft = true
is_soft _ = false

abbrev pub is_transient : Scope → Bool
is_transient transient = true
is_transient _ = false

-- What `_trailer_details` returns.
pub record TrailerDetails : Type 0 where
  pub message : Option Text
  pub code : Option Text
  pub retry_after : Option ℕ

abbrev no_details : TrailerDetails
no_details = record { message = none; code = none; retry_after = none }

module _ (lower : Text → Text) (dumps : Json → Text) (seconds : Json → Option ℕ) where
  unfoldable pub err_scope : Option Text → Text → Scope
  unfolding scope_of
  err_scope code text = scope_of code (lower text)

  -- `str(err)` where it is a text, else the parameter
  text_of : Json → Text
  text_of (str s) = s
  text_of j = dumps j

  error_message : Option Json → Option Text
  unfolding text_of get
  error_message (some (obj fs)) =
      some
        (elim (if_truthy (get (codes "message") fs)) [ some m ↦ text_of m | none ↦ dumps (obj fs) ])
  error_message (some j) = if truthy j then some (text_of j) else none
  error_message none = none

  error_code : Option Json → Option Text
  unfolding get
  error_code (some (obj fs)) = as_text (get (codes "code") fs)
  error_code _ = none

  -- the first value whose key is "retry-after" in lower case
  find_retry : Fields → Option Json
  find_retry end = none
  find_retry (field k v fs) =
      if text_beq (lower k) (codes "retry-after") then some v else find_retry fs

  retry_value : Option Json → Option ℕ
  retry_value (some (arr nil)) = none
  retry_value (some (arr (cons v vs))) = seconds v
  retry_value (some v) = seconds v
  retry_value none = none

  retry_of : Option Json → Option ℕ
  unfolding find_retry retry_value
  retry_of (some (obj fs)) = retry_value (find_retry fs)
  retry_of _ = none

  unfoldable pub trailer_details : Option Json → TrailerDetails
  unfolding error_message error_code retry_of get
  trailer_details (some (obj fs)) = record {
    message = error_message (get (codes "error") fs);
    code = error_code (get (codes "error") fs);
    retry_after = retry_of (get (codes "metadata") fs);
  }
  trailer_details _ = no_details
