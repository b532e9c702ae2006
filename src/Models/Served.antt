-- ===== src/Models/Served.antt =====
-- Which accounts serve a model: from the fetched lists to the scheduler's filter.
use devin_proxy.Prelude.{
  ℕ, Text, Bool, true, false, ◌≡◌, refl, ap, sym, ◌∙◌, Option, none, some, List, [], ◌∷◌, ◌++◌,
  lookup, insert, lookup-insert, if◌then◌else◌, text_eq, nat_eq, nat_beq, nat_beq_iff, elem,
  set_add, any, is_empty, ◌&&◌, ◌||◌, arith, Bool-cases, inl, inr, text_beq, text_beq_iff, ◌==◌,
  take, strip, or_else, not,
}
use devin_proxy.Data.{Try, done, raised}
use devin_proxy.Models.Catalog.{ModelInfo, Models}
use devin_proxy.Models.Route.{union, served, served_by}
use devin_proxy.Models.Sync.{
  Source, merged, merge_model, merge_models, fetch_all, sync, UrlItem, fetch_url, merge_item,
  merge_items, with_item, new_model, found_or,
}

pub elem-append : (i : ℕ) (xs ys : List ℕ) → elem i (xs ++ ys) ≡ elem i xs || elem i ys
elem-append i [] ys = refl
elem-append i (x ∷ xs) ys = ground (arith, elem-append i xs ys)

pub elem-set_add : (i y : ℕ) (xs : List ℕ) → elem i (set_add y xs) ≡ nat_beq y i || elem i xs
elem-set_add i y xs = ground (arith, elem-append i xs (y ∷ []), nat_beq_iff y i)

elem-union : (i : ℕ) (xs ys : List ℕ) → elem i (union xs ys) ≡ elem i xs || elem i ys
elem-union i xs [] = ground arith
elem-union i xs (y ∷ ys) = ground (arith, elem-set_add i y (union xs ys), elem-union i xs ys)

-- The accounts under a model's name.
abbrev pub accounts_of : Text → Models → List ℕ
accounts_of u models = (found_or (lookup u models) new_model).accounts

-- Whether the list has a model named `u`.
abbrev pub lists : Text → List (Text × ModelInfo) → Bool
lists u = any (λ (m : Text × ModelInfo). m.0 == u)

-- Whether one of the accounts numbered `i` answered with a list that has `u`.
abbrev pub listed_by : ℕ → Text → List Source → Bool
listed_by i u [] = false
listed_by i u (a ∷ rest) =
    elim a.answer [ done ms ↦ nat_beq a.id i && lists u ms | raised ex ↦ false ]
    || listed_by i u rest

accounts_of-insert :
    (u v : Text) (x : ModelInfo) (models : Models)
    → accounts_of u (insert v x models)
      ≡ (if text_beq v u then x.accounts else accounts_of u models)
accounts_of-insert u v x models =
    ap (λ o. (found_or o new_model).accounts) (lookup-insert v u x models)
    ∙ elim (Bool-cases (text_beq v u)) [ inl e ↦ rw e refl | inr e ↦ rw e refl ]

accounts_of-merge_model :
    (i aid : ℕ) (u v : Text) (m : ModelInfo) (models : Models)
    → elem i (accounts_of u (merge_model aid (v, m) models))
      ≡ (text_beq v u && nat_beq aid i) || elem i (accounts_of u models)
unfolding merge_model
accounts_of-merge_model i aid u v m models =
    let x = merged aid m (found_or (lookup v models) new_model) in
    elim (Bool-cases (text_beq v u)) [
      | inl e ↦
          rw (accounts_of-insert u v x models, e)
            (elem-set_add i aid (accounts_of v models)
              ∙ ap (λ w. nat_beq aid i || elem i (accounts_of w models)) ((text_beq_iff v u).0 e))
      | inr e ↦ rw (accounts_of-insert u v x models, e) refl
    ]

or_comm : (a b : Bool) → a || b ≡ b || a
or_comm a b = ground arith

or_swap : (a b c : Bool) → a || (b || c) ≡ (b || a) || c
or_swap a b c = ground arith

accounts_of-merge_models :
    (i aid : ℕ) (u : Text) (ms : List (Text × ModelInfo)) (models : Models)
    → elem i (accounts_of u (merge_models aid ms models))
      ≡ (nat_beq aid i && lists u ms) || elem i (accounts_of u models)
unfolding merge_models
accounts_of-merge_models i aid u [] models = ground arith
accounts_of-merge_models i aid u ((v, m) ∷ ms) models = ground (
  arith,
  accounts_of-merge_models i aid u ms (merge_model aid (v, m) models),
  accounts_of-merge_model i aid u v m models,
)

accounts_of-fetch_all :
    (i : ℕ) (u : Text) (srcs : List Source) (models : Models) (errors : List (Text × Text))
    → elem i (accounts_of u (fetch_all srcs (models, errors)).0)
      ≡ listed_by i u srcs || elem i (accounts_of u models)
unfolding fetch_all
accounts_of-fetch_all i u [] models errors = refl
accounts_of-fetch_all i u (a ∷ rest) models errors =
    by_answer a.answer refl (λ ms. accounts_of-fetch_all i u rest ms errors)
      (λ es. accounts_of-fetch_all i u rest models es)
  where
    by_answer :
        (t : Try (List (Text × ModelInfo)))
        → a.answer ≡ t
        → ((ms : Models)
            → elem i (accounts_of u (fetch_all rest (ms, errors)).0)
              ≡ listed_by i u rest || elem i (accounts_of u ms))
        → ((es : List (Text × Text))
            → elem i (accounts_of u (fetch_all rest (models, es)).0)
              ≡ listed_by i u rest || elem i (accounts_of u models))
        → elem i (accounts_of u (fetch_all (a ∷ rest) (models, errors)).0)
          ≡ listed_by i u (a ∷ rest) || elem i (accounts_of u models)
    by_answer (raised ex) e f g = rw e (g (errors ++ (a.name, take 200 ex) ∷ []))
    by_answer (done ms) e f g = rw e (
        f (merge_models a.id ms models)
        ∙ ap (λ b. listed_by i u rest || b) (accounts_of-merge_models i a.id u ms models)
        ∙ or_swap (listed_by i u rest) (nat_beq a.id i && lists u ms)
            (elem i (accounts_of u models)))

accounts_of-merge_item :
    (u : Text) (it : UrlItem) (models : Models)
    → accounts_of u (merge_item it models) ≡ accounts_of u models
unfolding merge_item
accounts_of-merge_item u it models =
    let uid = strip (or_else it.uid (or_else it.id [])) in
    let x = with_item it (found_or (lookup uid models) new_model) in
    elim (Bool-cases (is_empty uid)) [
      | inl e ↦ rw e refl
      | inr e ↦ rw e (
          accounts_of-insert u uid x models ∙ elim (Bool-cases (text_beq uid u)) [
            | inl f ↦ rw f (ap (λ w. accounts_of w models) ((text_beq_iff uid u).0 f))
            | inr f ↦ rw f refl
          ])
    ]

accounts_of-merge_items :
    (u : Text) (its : List UrlItem) (models : Models)
    → accounts_of u (merge_items its models) ≡ accounts_of u models
unfolding merge_items
accounts_of-merge_items u [] models = refl
accounts_of-merge_items u (it ∷ its) models =
    accounts_of-merge_items u its (merge_item it models) ∙ accounts_of-merge_item u it models

accounts_of-fetch_url :
    (u : Text) (url : Option (Try (List UrlItem))) (models : Models)
    → accounts_of u (fetch_url url models).0 ≡ accounts_of u models
unfolding fetch_url
accounts_of-fetch_url u none models = refl
accounts_of-fetch_url u (some (done its)) models = accounts_of-merge_items u its models
accounts_of-fetch_url u (some (raised ex)) models = refl

or_false : (b : Bool) → b || false ≡ b
or_false b = ground arith

-- After a sync, the accounts filed under a model are those that answered this sync with a list that
-- has it, whatever the URL's catalog adds and whichever other accounts failed. In particular an
-- account whose fetch fails is filed under no model, whatever the sync before had found for it.
pub accounts_of-sync :
    (now i : ℕ) (u : Text) (srcs : List Source) (url : Option (Try (List UrlItem)))
    → elem i (accounts_of u (sync now srcs url).0) ≡ listed_by i u srcs
unfolding sync lookup
accounts_of-sync now i u srcs url =
    ap (elem i) (accounts_of-fetch_url u url (fetch_all srcs ([], [])).0)
    ∙ accounts_of-fetch_all i u srcs [] []
    ∙ or_false (listed_by i u srcs)

elem-empty : (i : ℕ) (xs : List ℕ) → is_empty xs ≡ true → elem i xs ≡ false
elem-empty i [] h = refl
elem-empty i (x ∷ xs) h = cc

some_inj : {a b : List ℕ × List ℕ} → some a ≡ some b → a ≡ b
some_inj h = cc

elem-served :
    (want : List Text) (models : Models) (i : ℕ)
    → (elem i (served want models).0
        ≡ any (λ (m : Text × ModelInfo). elem m.0 want && elem i m.1.accounts) models)
      × (elem i (served want models).1 ≡ any (λ (m : Text × ModelInfo). elem i m.1.accounts) models)
unfolding served
elem-served want [] i = (refl, refl)
elem-served want ((u, m) ∷ ms) i =
    let ih = elem-served want ms i in
    let step = λ (xs : List ℕ) (b : Bool) (h : elem i xs ≡ b).
      elem-union i xs m.accounts
      ∙ ap (λ c. c || elem i m.accounts) h
      ∙ or_comm b (elem i m.accounts) in
    elim (Bool-cases (elem u want)) [
      | inr e ↦ rw e (ih.0, step (served want ms).1 _ ih.1)
      | inl e ↦ elim (Bool-cases (is_empty m.accounts)) [
        | inl f ↦ rw (e, f) (rw (elem-empty i m.accounts f) ih.0, step (served want ms).1 _ ih.1)
        | inr f ↦ rw (e, f) (step (served want ms).0 _ ih.0, step (served want ms).1 _ ih.1)
      ]
    ]

-- A wanted model has an account.
abbrev pub has_wanted : List Text → Models → Bool
has_wanted want = any (λ (m : Text × ModelInfo). elem m.0 want && not (is_empty m.1.accounts))

hit-served : (want : List Text) (models : Models) → (served want models).2 ≡ has_wanted want models
unfolding served
hit-served want [] = refl
hit-served want ((u, m) ∷ ms) = elim (Bool-cases (elem u want)) [
  | inr e ↦ rw e (hit-served want ms)
  | inl e ↦ elim (Bool-cases (is_empty m.accounts)) [
    | inl f ↦ rw (e, f) (hit-served want ms)
    | inr f ↦ rw (e, f) refl
  ]
]

-- What an answer has to be: there is none just where no wanted model has an account; else the allowed
-- accounts are those of the wanted models, and the known ones those of any model.
abbrev pub IsServed : List Text → Models → Option (List ℕ × List ℕ) → Type 0
IsServed want models none = has_wanted want models ≡ false
IsServed want models (some (allowed, seen)) =
    (has_wanted want models ≡ true)
    × ((i : ℕ)
        → (elem i allowed
            ≡ any (λ (m : Text × ModelInfo). elem m.0 want && elem i m.1.accounts) models)
          × (elem i seen ≡ any (λ (m : Text × ModelInfo). elem i m.1.accounts) models))

-- `served_by` answers exactly when a wanted model has an account. When it answers, the allowed
-- accounts are those of the wanted models, and the known ones those of any model.
pub served_by-IsServed :
    (want : List Text) (models : Models) → IsServed want models (served_by want models)
unfolding served_by
served_by-IsServed want models = elim (Bool-cases (served want models).2) [
  | inr e ↦ rw (served_by, e) (sym (hit-served want models) ∙ e)
  | inl e ↦ rw (served_by, e) (sym (hit-served want models) ∙ e, elem-served want models)
]
