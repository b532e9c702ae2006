-- ===== src/Accounts/Failure.antt =====
-- `is_hard_failure` of devin_proxy/accounts.py.
use devin_proxy.Prelude.{
  ℕ, Text, codes, Bool, true, false, ◌||◌, Option, none, some, List, [], ◌∷◌, elem, nat_eq, leb,
  if◌then◌else◌,
}
use devin_proxy.Data.{ErrDict}
use devin_proxy.Upstream.Errors.{hinted}

-- What `mark_fail` is given: an error dict, or anything else with its text.
pub data Failure : Type 0 where
  dict : ErrDict → Failure
  other : Text → Failure

-- The hints of the last test, which accounts.py lists a second time.
abbrev pub hard_hints : List Text
hard_hints =
    codes "quota"
    ∷ codes "limit reached"
    ∷ codes "usage paused"
    ∷ codes "unauthorized"
    ∷ codes "forbidden"
    ∷ codes "not authenticated"
    ∷ codes "rate limit"
    ∷ codes "credit"
    ∷ []

abbrev pub hard_statuses : List ℕ
hard_statuses = 401 ∷ 402 ∷ 403 ∷ 408 ∷ 409 ∷ 425 ∷ 429 ∷ []

module _ (lower : Text → Text) where
  hard_status : Text → Option ℕ → Bool
  unfolding hinted
  hard_status message none = true
  hard_status message (some code) =
      if elem code hard_statuses || leb 500 code then true else hinted (lower message) hard_hints

  unfoldable pub is_hard_failure : Failure → Bool
  unfolding hard_status
  is_hard_failure (other e) = true
  is_hard_failure (dict e) =
      if e.soft || e.transient then false else hard_status e.message e.http_status
