-- ===== src/Responses/Stored.antt =====
-- The routes of devin_proxy/app.py that read and delete a stored response: `get_response`,
-- `delete_response` and `response_input_items`. An id that an item lacks is the empty text.
use devin_proxy.Prelude.{
  Text, codes, Bool, true, false, not, Option, none, some, List, [], ◌∷◌, map, keep, text_eq, ◌==◌,
  if◌then◌else◌,
}
use devin_proxy.Data.{Json, Fields, null, bool, str, obj, end, field, get}
use devin_proxy.Responses.Input.{text_at}
use devin_proxy.Responses.Output.{dicts_json, list_at}
use devin_proxy.Responses.Input.{dicts}
use devin_proxy.Responses.Chain.{Table, items_of}
use devin_proxy.Responses.Chain

-- What a route answers: a JSON value, or the status 404.
pub data Reading : Type 0 where
  found : Json → Reading
  not_found : Reading
  unreadable : Reading

abbrev pub id_of : Fields → Option Text
id_of i = text_at (codes "id") i

abbrev pub id_json : Option Fields → Json
id_json none = null
id_json (some i) = elim (id_of i) [ none ↦ null | some t ↦ str t ]

abbrev pub first_of : List Fields → Option Fields
first_of [] = none
first_of (i ∷ is) = some i

abbrev pub last_of : List Fields → Option Fields
last_of [] = none
last_of (i ∷ []) = some i
last_of (i ∷ j ∷ is) = last_of (j ∷ is)

-- Whether an item has one of these ids; an item without an id matches those without one.
abbrev pub is_among : List (Option Text) → Option Text → Bool
is_among [] id = false
is_among (none ∷ os) none = true
is_among (some t ∷ os) (some u) = if t == u then true else is_among os (some u)
is_among (o ∷ os) id = is_among os id

module _ (loads : Text → Option Json) where
  abbrev pub read : Option Json → Reading
  read none = unreadable
  read (some j) = found j

  -- `get_response`
  unfoldable pub show_response : Text → Table → Reading
  unfolding Chain.get_response
  show_response rid t = elim (Chain.get_response rid t) [
    | none ↦ not_found
    | some s ↦ read (loads s.response_json)
  ]

  -- `delete_response`
  unfoldable pub remove_response : Text → Table → Table × Reading
  unfolding Chain.delete_response
  remove_response rid t =
      let (t', deleted) = Chain.delete_response rid t in
      (
        t',
        if deleted
            then found (
                obj (
                  field (codes "id") (str rid) (
                    field (codes "object") (str (codes "response.deleted"))
                      (field (codes "deleted") (bool true) end))))
            else not_found,
      )

  -- The items that were given: those whose ids are not among the answer's.
  unfoldable pub given_items : Json → Json → List Fields
  unfolding text_at get
  given_items (obj response) items =
      let out_ids = map id_of (dicts (list_at (get (codes "output") response))) in
      keep (λ i. not (is_among out_ids (id_of i))) (items_of items)
  given_items _ items = items_of items

  abbrev pub listing : List Fields → Json
  listing items = obj (
      field (codes "object") (str (codes "list")) (
        field (codes "data") (dicts_json items) (
          field (codes "first_id") (id_json (first_of items)) (
            field (codes "last_id") (id_json (last_of items))
              (field (codes "has_more") (bool false) end)))))

  abbrev pub list_items : Option Json → Option Json → Reading
  list_items (some response) (some items) = found (listing (given_items response items))
  list_items _ _ = unreadable

  -- `response_input_items`
  unfoldable pub response_input_items : Text → Table → Reading
  unfolding given_items Chain.get_response text_at
  response_input_items rid t = elim (Chain.get_response rid t) [
    | none ↦ not_found
    | some s ↦ list_items (loads s.response_json) (loads s.items_json)
  ]
