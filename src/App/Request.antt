-- ===== src/App/Request.antt =====
-- What `map_tools` and `build_request` of devin_proxy/app.py make of a chat body besides its messages.
use devin_proxy.Prelude.{
  ℕ, min, Text, codes, Option, none, some, List, [], ◌∷◌, ◌++◌, if◌then◌else◌, text_beq, nat_beq,
}
use devin_proxy.Data.{Json, Items, Fields, num, arr, obj, nil, cons, end, get, if_truthy, as_text}

-- A tool as the upstream takes it; `parameters` is a JSON object.
pub record ToolDef : Type 0 where
  pub name : Text
  pub description : Text
  pub parameters : Json

-- `t.get("function") or {}`
abbrev pub function_or_empty : Fields → Fields
function_or_empty t = elim (if_truthy (get (codes "function") t)) [ some (obj fn) ↦ fn | _ ↦ end ]

-- `d.get(key, "")`, for a text
abbrev pub text_default : Text → Fields → Text
text_default k d = elim (as_text (get k d)) [ none ↦ [] | some t ↦ t ]

abbrev pub parameters_of : Fields → Json
parameters_of fn = elim (if_truthy (get (codes "parameters") fn)) [ none ↦ obj end | some j ↦ j ]

unfoldable pub map_tool : Fields → List ToolDef
unfolding get
map_tool t =
    if text_beq (text_default (codes "type") t) (codes "function")
    then (let fn = function_or_empty t in
        record {
          name = text_default (codes "name") fn;
          description = text_default (codes "description") fn;
          parameters = parameters_of fn;
        }
        ∷ [])
    else []

map_items : Items → List ToolDef
unfolding map_tool
map_items nil = []
map_items (cons (obj t) ts) = map_tool t ++ map_items ts
map_items (cons _ ts) = map_items ts

-- `map_tools`
unfoldable pub map_tools : Option Json → List ToolDef
unfolding map_items
map_tools (some (arr ts)) = map_items ts
map_tools _ = []

-- The tools that are sent: none where the body asks for none.
unfoldable pub sent_tools : Fields → List ToolDef
unfolding get map_tools
sent_tools body =
    if text_beq (text_default (codes "tool_choice") body) (codes "none")
    then []
    else map_tools (get (codes "tools") body)

-- A count that is missing or zero counts as none.
abbrev pub count_of : Option Json → Option ℕ
count_of (some (num n)) = if nat_beq n 0 then none else some n
count_of _ = none

abbrev pub or_count : Option ℕ → Option ℕ → Option ℕ
or_count none other = other
or_count (some n) other = some n

abbrev pub asked_tokens : Fields → Option ℕ
asked_tokens body = or_count (count_of (get (codes "max_tokens") body)) (
    or_count (count_of (get (codes "max_output_tokens") body))
      (count_of (get (codes "max_completion_tokens") body)))

abbrev pub capped : Option ℕ → Option ℕ → Option ℕ
capped none asked = asked
capped (some cap) none = some cap
capped (some cap) (some n) = some (min n cap)

abbrev pub nonzero : Option ℕ → Option ℕ
nonzero none = none
nonzero (some n) = if nat_beq n 0 then none else some n

-- The limit of the answer, by the catalog's `max_output` for the model.
unfoldable pub max_tokens : Option ℕ → Fields → Option ℕ
unfolding get
max_tokens cap body = capped (nonzero cap) (asked_tokens body)
