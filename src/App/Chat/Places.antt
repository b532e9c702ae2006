-- ===== src/App/Chat/Places.antt =====
-- The names and the positions of the calls in the chunks of `_sse_stream` of devin_proxy/app.py, and the
-- usage in them.
use devin_proxy.Prelude.{
  ℕ, zero, suc, Text, Bool, true, not, ◌&&◌, ◌||◌, ◌≡◌, refl, ap, Option, none, some, List, [], ◌∷◌,
  ◌++◌, All, elem, is_empty, text_eq, text_beq, text_beq_iff, if◌then◌else◌, Bool-cases, inl, inr,
}
use devin_proxy.Data.{ChatToolCall, Fields, msg}
use devin_proxy.App.ToolAgg.{index_of}
use devin_proxy.App.Driver.Attempt.{Yield, from, from_none}
use devin_proxy.App.Chat.{
  Delta, role, content, reasoning, call, Chunk, chunk, usage_chunk, error_object, done_line,
}

-- What a delta adds to the name of the call `c`.
abbrev pub name_in : Text → Delta → Text
name_in c (call i id name args) = if text_beq id c then name else []
name_in c _ = []

-- The usage that a stream tells.
abbrev pub usage_in : List Chunk → Option Fields
usage_in [] = none
usage_in (usage_chunk rid u ∷ cs) = some u
usage_in (_ ∷ cs) = usage_in cs

abbrev pub get_elem? {ℓ} : {A : Type ℓ} → List A → ℕ → Option A
get_elem? [] i = none
get_elem? (x ∷ xs) zero = some x
get_elem? (x ∷ xs) (suc i) = get_elem? xs i

-- The delta of a call has the position of its id.
abbrev pub IsAt : List Text → Delta → Type 0
IsAt order (call i id name args) = get_elem? order i ≡ some id
IsAt order _ = Unit

abbrev pub IsPlaced : List Text → Chunk → Type 0
IsPlaced order (chunk rid d fin) = IsAt order d
IsPlaced order _ = Unit

-- A delta that names its call has the call's id and the one name of that id.
abbrev pub is_named : (Text → Text) → ChatToolCall → Bool
is_named names tc = is_empty tc.name || (not (is_empty tc.id) && text_beq tc.name (names tc.id))

abbrev pub AreNamed : (Text → Text) → List ChatToolCall → Type 0
AreNamed names tcs = All (λ tc. is_named names tc ≡ true) tcs

abbrev pub YieldsNamed : (Text → Text) → List Yield → Type 0
YieldsNamed names [] = Unit
YieldsNamed names (from r (msg m) ∷ ys) = AreNamed names m.delta_tool_calls × YieldsNamed names ys
YieldsNamed names (from_none (msg m) ∷ ys) =
    AreNamed names m.delta_tool_calls × YieldsNamed names ys
YieldsNamed names (_ ∷ ys) = YieldsNamed names ys

abbrev pub is_usual : (Text → Text) → Text → Text → Bool
is_usual names cid name = is_empty name || text_beq name (names cid)

pub get_elem?-append :
    (xs ys : List Text) (i : ℕ) (a : Text)
    → get_elem? xs i ≡ some a
    → get_elem? (xs ++ ys) i ≡ some a
get_elem?-append [] ys i a h = cc
get_elem?-append (x ∷ xs) ys zero a h = h
get_elem?-append (x ∷ xs) ys (suc i) a h = get_elem?-append xs ys i a h

pub get_elem?-index_of :
    (c : Text) (xs : List Text) → elem c xs ≡ true → get_elem? xs (index_of c xs) ≡ some c
unfolding index_of
get_elem?-index_of c [] h = cc
get_elem?-index_of c (d ∷ ds) h = elim (Bool-cases (text_beq d c)) [
  | inl e ↦ rw e (ap some ((text_beq_iff d c).0 e))
  | inr e ↦ rw e (get_elem?-index_of c ds (rw e at h))
]

pub elem-append_left : (c : Text) (xs ys : List Text) → elem c xs ≡ true → elem c (xs ++ ys) ≡ true
elem-append_left c [] ys h = cc
elem-append_left c (x ∷ xs) ys h = elim (Bool-cases (text_beq x c)) [
  | inl e ↦ rw e refl
  | inr e ↦ rw e (elem-append_left c xs ys (rw e at h))
]

pub elem-append_self : (c : Text) (xs : List Text) → elem c (xs ++ c ∷ []) ≡ true
elem-append_self c [] = rw ((text_beq_iff c c).1 refl) refl
elem-append_self c (x ∷ xs) = elim (Bool-cases (text_beq x c)) [
  | inl e ↦ rw e refl
  | inr e ↦ rw e (elem-append_self c xs)
]

pub IsAt-append : (xs ys : List Text) (d : Delta) → IsAt xs d → IsAt (xs ++ ys) d
IsAt-append xs ys role h = tt
IsAt-append xs ys (content t) h = tt
IsAt-append xs ys (reasoning t) h = tt
IsAt-append xs ys (call i id name args) h = get_elem?-append xs ys i id h
IsAt-append xs ys Delta.nothing h = tt

pub All-IsPlaced-append :
    (xs ys : List Text) (cs : List Chunk) → All (IsPlaced xs) cs → All (IsPlaced (xs ++ ys)) cs
All-IsPlaced-append xs ys [] h = tt
All-IsPlaced-append xs ys (chunk rid d fin ∷ cs) h =
    (IsAt-append xs ys d h.0, All-IsPlaced-append xs ys cs h.1)
All-IsPlaced-append xs ys (usage_chunk rid u ∷ cs) h = (tt, All-IsPlaced-append xs ys cs h.1)
All-IsPlaced-append xs ys (error_object e k ∷ cs) h = (tt, All-IsPlaced-append xs ys cs h.1)
All-IsPlaced-append xs ys (done_line ∷ cs) h = (tt, All-IsPlaced-append xs ys cs h.1)

pub All-append {ℓ κ} :
    {A : Type ℓ} (P : A → Type κ) (xs ys : List A) → All P xs → All P ys → All P (xs ++ ys)
All-append P [] ys h k = k
All-append P (x ∷ xs) ys h k = (h.0, All-append P xs ys h.1 k)

pub usage_in-append : (cs ds : List Chunk) → usage_in cs ≡ none → usage_in (cs ++ ds) ≡ usage_in ds
usage_in-append [] ds h = refl
usage_in-append (chunk rid d fin ∷ cs) ds h = usage_in-append cs ds h
usage_in-append (usage_chunk rid u ∷ cs) ds h = cc
usage_in-append (error_object e k ∷ cs) ds h = usage_in-append cs ds h
usage_in-append (done_line ∷ cs) ds h = usage_in-append cs ds h
