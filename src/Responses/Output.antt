-- ===== src/Responses/Output.antt =====
-- The response object of the Responses API and its output items, and the tools of the chat request,
-- in devin_proxy/responses.py.
use devin_proxy.Prelude.{
  ℕ, suc, ◌+◌, Text, codes, Bool, true, false, Option, none, some, List, [], ◌∷◌, ◌++◌, map, keep,
  elem, if◌then◌else◌, text_eq, text_beq, is_empty, ◌||◌, not,
}
use devin_proxy.Data.{
  Json, Items, Fields, null, bool, num, str, arr, obj, nil, cons, end, field, get, truthy,
  if_truthy,
}
use devin_proxy.App.ToolAgg.{Call, ToolAgg, call_of}
use devin_proxy.Upstream.Usage.{or_end, count_at}
use devin_proxy.Responses.Input.{text_at, text_or, dicts, to_list, freeform_tools}

abbrev pub to_items : List Json → Items
to_items [] = nil
to_items (j ∷ js) = cons j (to_items js)

-- `d.get(key) or other`
abbrev pub get_or : Text → Fields → Json → Json
get_or k fs other = elim (if_truthy (get k fs)) [ none ↦ other | some j ↦ j ]

-- `d.get(key, other)`, and with `None` for a missing key
abbrev pub get_default : Text → Fields → Json → Json
get_default k fs other = elim (get k fs) [ none ↦ other | some j ↦ j ]

abbrev pub list_at : Option Json → List Json
list_at (some (arr js)) = to_list js
list_at _ = []

-- `fn = t.get("function") or t`
abbrev pub function_of : Fields → Fields
function_of t = elim (if_truthy (get (codes "function") t)) [ some (obj fn) ↦ fn | _ ↦ t ]

abbrev pub empty_schema : Json
empty_schema =
    obj (field (codes "type") (str (codes "object")) (field (codes "properties") (obj end) end))

-- The one parameter that stands for freeform input.
abbrev pub input_schema : Json
input_schema = obj (
    field (codes "type") (str (codes "object")) (
      field (codes "properties")
        (obj (field (codes "input") (obj (field (codes "type") (str (codes "string")) end)) end))
        (field (codes "required") (arr (cons (str (codes "input")) nil))
          (field (codes "additionalProperties") (bool false) end))))

-- A tool of the chat request, as its name, its description and its parameters.
pub record Tool : Type 0 where
  pub name : Text
  pub description : Text
  pub parameters : Json

unfoldable pub norm_tool : Fields → List Tool
unfolding text_or get
norm_tool t =
    let kind = text_or (codes "type") t [] in
    if text_beq kind (codes "function")
    then (let fn = function_of t in
        record {
          name = text_or (codes "name") fn [];
          description = text_or (codes "description") fn [];
          parameters = get_or (codes "parameters") fn empty_schema;
        }
        ∷ [])
    else if elem kind freeform_tools
    then record {
      name = text_or (codes "name") t [];
      description = text_or (codes "description") t [];
      parameters = input_schema;
    }
      ∷ []
    else []

abbrev pub norm_all : List Fields → List Tool
unfolding norm_tool
norm_all [] = []
norm_all (t ∷ ts) = norm_tool t ++ norm_all ts

-- `_norm_tools`
unfoldable pub norm_tools : Option Json → List Tool
norm_tools tools = keep (λ (t : Tool). not (is_empty t.name)) (norm_all (dicts (list_at tools)))

freeform_name : Fields → List Text
unfolding text_or
freeform_name t =
    let name = text_or (codes "name") t [] in
    if elem (text_or (codes "type") t []) freeform_tools
    then (if is_empty name then [] else name ∷ [])
    else []

names_of : List Fields → List Text
unfolding freeform_name
names_of [] = []
names_of (t ∷ ts) = freeform_name t ++ names_of ts

-- `custom_tool_names`
unfoldable pub custom_tool_names : Fields → List Text
unfolding names_of get
custom_tool_names body = names_of (dicts (list_at (get (codes "tools") body)))

-- `_unwrap_input`, where `loads` is `json.loads`, `none` where it raises
unfoldable pub unwrap_input : (Text → Option Json) → Text → Text
unfolding text_at
unwrap_input loads args = elim (loads args) [
  | some (obj d) ↦ elim (text_at (codes "input") d) [ some t ↦ t | none ↦ args ]
  | _ ↦ args
]

-- `_norm_tool_choice`; a list or a number, on which the code raises, is taken as any other choice.
unfoldable pub norm_tool_choice : Option Json → Json
unfolding text_at text_or
norm_tool_choice none = null
norm_tool_choice (some (str t)) = str t
norm_tool_choice (some (obj tc)) =
    if not (truthy (obj tc))
    then obj tc
    else if text_beq (text_or (codes "type") tc []) (codes "function")
    then obj (
        field (codes "type") (str (codes "function")) (
          field (codes "function")
            (obj (field (codes "name") (str (text_or (codes "name") tc [])) end)) end))
    else str (codes "auto")
norm_tool_choice (some j) = if truthy j then str (codes "auto") else j

-- The items of a response, with the keys that depend on how far an item has come.
pub data Item : Type 0 where
  reasoning : (id : Text) (summary content : List Text) → Item
  message : (id status : Text) (content : List Text) → Item
  function_call : (id status call_id name arguments : Text) → Item
  custom_call : (id status call_id name input : Text) → Item

-- What `_iid` draws: a prefix, and the number of the draw.
abbrev pub Ids : Type 0
Ids = Text → ℕ → Text

abbrev pub completed : Text
completed = codes "completed"

module _ (loads : Text → Option Json) (ids : Ids) (custom : List Text) where
  -- A call that has ended, under the id of its item.
  abbrev pub call_item : Text → Call → Item
  call_item id c =
      if elem c.name custom
      then custom_call id completed c.id c.name (unwrap_input loads c.args)
      else function_call id completed c.id c.name c.args

  -- The calls in the order in which they came; `k` numbers their ids.
  unfoldable pub call_items_of : ToolAgg → ℕ → List Text → List Item
  unfolding unwrap_input call_of
  call_items_of agg k [] = []
  call_items_of agg k (cid ∷ cids) =
      call_item (ids (codes "fc") k) (call_of agg cid) ∷ call_items_of agg (suc k) cids

  -- `output_items`; the draws of ids begin at `n`.
  unfoldable pub output_items : ℕ → Text → Text → ToolAgg → List Item
  unfolding call_items_of
  output_items n text think agg =
      (if is_empty think then [] else reasoning (ids (codes "rs") n) (think ∷ []) (think ∷ []) ∷ [])
      ++ (call_items_of agg n agg.order
          ++ (if not (is_empty text) || is_empty agg.order
              then message (ids (codes "msg") n) completed (text ∷ []) ∷ []
              else []))

-- The dict of a part: its type and its text.
abbrev pub part_json : Text → Text → Json
part_json kind t = obj (field (codes "type") (str kind) (field (codes "text") (str t) end))

abbrev pub text_part_json : Text → Json
text_part_json t = obj (
    field (codes "type") (str (codes "output_text"))
      (field (codes "text") (str t) (field (codes "annotations") (arr nil) end)))

-- The dict of an item.
unfoldable pub item_fields : Item → Fields
item_fields (reasoning id summary content) = field (codes "id") (str id) (
    field (codes "type") (str (codes "reasoning")) (
      field (codes "summary") (arr (to_items (map (part_json (codes "summary_text")) summary))) (
        if is_empty content
        then end
        else field (codes "content")
            (arr (to_items (map (part_json (codes "reasoning_text")) content))) end)))
item_fields (message id status content) = field (codes "id") (str id) (
    field (codes "type") (str (codes "message")) (
      field (codes "role") (str (codes "assistant")) (
        field (codes "status") (str status)
          (field (codes "content") (arr (to_items (map text_part_json content))) end))))
item_fields (function_call id status call_id name arguments) = field (codes "id") (str id) (
    field (codes "type") (str (codes "function_call")) (
      field (codes "call_id") (str call_id) (
        field (codes "name") (str name)
          (field (codes "arguments") (str arguments) (field (codes "status") (str status) end)))))
item_fields (custom_call id status call_id name input) = field (codes "id") (str id) (
    field (codes "type") (str (codes "custom_tool_call")) (
      field (codes "call_id") (str call_id) (
        field (codes "name") (str name)
          (field (codes "input") (str input) (field (codes "status") (str status) end)))))

-- `_usage_obj`: the counts of the Responses API, in which the input includes what was cached.
unfoldable pub usage_obj : Option Fields → Fields
unfolding get
usage_obj usage =
    let u = or_end usage in
    let cached = count_at (codes "cached_tokens") u in
    let inp = count_at (codes "prompt_tokens") u + cached in
    let out = count_at (codes "completion_tokens") u in
    field (codes "input_tokens") (num inp) (
      field (codes "output_tokens") (num out) (
        field (codes "total_tokens") (num (inp + out)) (
          field (codes "input_tokens_details")
            (obj (field (codes "cached_tokens") (num cached) end))
            (field (codes "output_tokens_details")
              (obj (field (codes "reasoning_tokens") (num 0) end)) end))))

abbrev pub is_false : Option Json → Bool
is_false (some (bool false)) = true
is_false _ = false

-- What `response_object` takes from its arguments: id, time, status, error, model, output and usage.
pub record Status : Type 0 where
  pub id : Text
  pub created_at : ℕ
  pub status : Text
  pub error : Json
  pub model : Text
  pub output : List Fields
  pub usage : Option Fields

-- A list of dicts as a value.
abbrev pub dicts_json : List Fields → Json
dicts_json items = arr (to_items (map obj items))

-- `response_object`
unfoldable pub response_object : Fields → Status → Fields
unfolding usage_obj get
response_object body s =
    let echo = λ (k : Text) (rest : Fields). field k (get_default k body null) rest in
    let echo_or = λ (k : Text) (other : Json) (rest : Fields). field k (get_or k body other) rest in
    field (codes "id") (str s.id) (
      field (codes "object") (str (codes "response")) (
        field (codes "created_at") (num s.created_at) (
          field (codes "status") (str s.status) (
            field (codes "error") s.error (
              field (codes "incomplete_details") null (
                echo (codes "instructions") (
                  field (codes "model") (str s.model) (
                    field (codes "output") (dicts_json s.output) (
                      echo_or (codes "tools") (arr nil) (
                        echo_or (codes "tool_choice") (str (codes "auto")) (
                          field (codes "parallel_tool_calls")
                            (get_default (codes "parallel_tool_calls") body (bool true))
                            (echo (codes "previous_response_id") (
                              echo_or (codes "reasoning") (obj (field (codes "effort") null end)) (
                                field (codes "store")
                                  (bool (not (is_false (get (codes "store") body))))
                                  (echo (codes "temperature") (
                                    echo (codes "top_p") (
                                      echo (codes "max_output_tokens") (
                                        echo_or (codes "text")
                                          (obj (
                                            field (codes "format")
                                              (obj (field (codes "type") (str (codes "text")) end))
                                              end))
                                          (echo_or (codes "truncation") (str (codes "disabled")) (
                                            field (codes "usage") (obj (usage_obj s.usage)) (
                                              echo_or (codes "metadata") (obj end)
                                                (echo (codes "user") end))))))))))))))))))))))
