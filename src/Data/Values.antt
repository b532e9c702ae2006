-- ===== src/Data/Values.antt =====
-- JSON values as Python holds them after `json.loads`, and decimal numerals.
use devin_proxy.Prelude.{
  ℕ, zero, suc, ◌+◌, ◌/◌, ◌%◌, Text, Bool, true, false, Option, none, some, [], ◌∷◌, ◌++◌, ltb,
  nat_beq, not, text_beq, if◌then◌else◌,
}

mutual
  pub data Json : Type 0 where
    null : Json
    bool : Bool → Json
    num : ℕ → Json
    str : Text → Json
    arr : Items → Json
    obj : Fields → Json

  pub data Items : Type 0 where
    nil : Items
    cons : Json → Items → Items

  pub data Fields : Type 0 where
    end : Fields
    field : Text → Json → Fields → Fields

-- `d.get(key)` on the fields of a dict
unfoldable pub get : Text → Fields → Option Json
get k end = none
get k (field j v fs) = if text_beq j k then some v else get k fs

-- Python's truth value.
abbrev pub truthy : Json → Bool
truthy null = false
truthy (bool b) = b
truthy (num n) = not (nat_beq n 0)
truthy (str []) = false
truthy (str (c ∷ s)) = true
truthy (arr nil) = false
truthy (arr (cons x xs)) = true
truthy (obj end) = false
truthy (obj (field k v fs)) = true

-- a `.get` whose result is used only if it is true
abbrev pub if_truthy : Option Json → Option Json
if_truthy none = none
if_truthy (some j) = if truthy j then some j else none

abbrev pub as_text : Option Json → Option Text
as_text (some (str s)) = some s
as_text _ = none

unfoldable pub digits_of : ℕ → ℕ → Text
digits_of zero n = []
digits_of (suc f) n =
    let high = digits_of f (n / 10) in
    if ltb n 10 then (b'0' + n) ∷ [] else high ++ (b'0' + n % 10) ∷ []

-- `str(n)`
unfoldable pub decimal : ℕ → Text
unfolding digits_of
decimal n = digits_of (suc n) n
