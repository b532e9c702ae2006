-- ===== src/Responses/Input.antt =====
-- The request of the Responses API: its items and tools in the shape of a chat request, in
-- devin_proxy/responses.py. Fields that hold texts are read as texts: another value reads as none.
use devin_proxy.Prelude.{
  Text, codes, Option, none, some, List, [], ◌∷◌, ◌++◌, map, flatten, elem, join, starts_with,
  if◌then◌else◌, or_else, text_eq, text_beq, is_empty, ◌&&◌, not,
}
use devin_proxy.Data.{Json, Items, Fields, null, str, arr, obj, nil, cons, end, field, get, as_text}
use devin_proxy.App.Messages.{
  Message, Content, Part, system, user, assistant, tool, unknown, absent, plain, parts, text_part,
  image_part,
}

abbrev pub to_list : Items → List Json
to_list nil = []
to_list (cons j js) = j ∷ to_list js

-- `d.get(key)`, for a text
unfoldable pub text_at : Text → Fields → Option Text
unfolding get
text_at k fs = as_text (get k fs)

-- `d.get(key) or other`
unfoldable pub text_or : Text → Fields → Text → Text
unfolding text_at
text_or k fs other = or_else (text_at k fs) other

-- `[x for x in xs if isinstance(x, dict)]`
abbrev pub dicts : List Json → List Fields
dicts [] = []
dicts (obj fs ∷ js) = fs ∷ dicts js
dicts (_ ∷ js) = dicts js

-- `normalize_input`
unfoldable pub normalize_input : Option Json → List Fields
normalize_input none = []
normalize_input (some (str t)) =
    field (codes "type") (str (codes "message")) (
      field (codes "role") (str (codes "user")) (
        field (codes "content")
          (arr (
            cons
              (obj (
                field (codes "type") (str (codes "input_text")) (field (codes "text") (str t) end)))
              nil))
          end))
    ∷ []
normalize_input (some (arr js)) = dicts (to_list js)
normalize_input (some _) = []

-- `{i.get("id"): i for i in items if i.get("id")}[key]`: the last one counts.
unfoldable pub by_id : Text → List Fields → Option Fields
unfolding text_or
by_id key [] = none
by_id key (i ∷ is) =
    let rest = by_id key is in
    elim rest [
      | some j ↦ some j
      | none ↦
          if text_beq (text_or (codes "id") i []) key && not (is_empty key) then some i else none
    ]

-- `_resolve_refs`
unfoldable pub resolve_refs : List Fields → List Fields → List Fields
unfolding by_id text_or
resolve_refs index [] = []
resolve_refs index (it ∷ its) =
    if text_beq (text_or (codes "type") it []) (codes "item_reference")
    then elim (by_id (text_or (codes "id") it []) index) [
      | none ↦ resolve_refs index its
      | some ref ↦ ref ∷ resolve_refs index its
    ]
    else it ∷ resolve_refs index its

-- `_CALL_ITEMS`, `_OUT_ITEMS` and `_FREEFORM_TOOLS`
abbrev pub call_items : List Text
call_items =
    codes "function_call"
    ∷ codes "custom_tool_call"
    ∷ codes "local_shell_call"
    ∷ codes "computer_call"
    ∷ []

abbrev pub out_items : List Text
out_items =
    codes "function_call_output"
    ∷ codes "custom_tool_call_output"
    ∷ codes "local_shell_call_output"
    ∷ codes "computer_call_output"
    ∷ []

abbrev pub freeform_tools : List Text
freeform_tools = codes "custom" ∷ codes "freeform" ∷ []

-- The URL of an image part: a text, or a dict with a text.
abbrev pub url_of : Option Json → Text
url_of (some (str u)) = u
url_of (some (obj fs)) = or_else (as_text (get (codes "url") fs)) []
url_of _ = []

abbrev pub note_of : Text → Text → Text
note_of name content =
    let note = if starts_with content (codes "data:") then [] else content in
    or_else (some note) (codes "[file: " ++ (name ++ codes "]"))

-- A part of a message's content in the shape of a chat message: none where it is dropped.
unfoldable pub part_of : Fields → List Part
unfolding text_or get
part_of p =
    let kind = text_or (codes "type") p [] in
    if elem kind (codes "input_text" ∷ codes "output_text" ∷ codes "text" ∷ [])
    then text_part (some (text_or (codes "text") p [])) ∷ []
    else if elem kind (codes "input_image" ∷ codes "image_url" ∷ [])
    then (let url = url_of (get (codes "image_url") p) in
        if is_empty url then [] else image_part url ∷ [])
    else if text_beq kind (codes "input_file")
    then text_part (
        some (
          note_of (text_or (codes "filename") p (codes "file")) (text_or (codes "file_data") p [])))
      ∷ []
    else []

-- The content of a message: a list is mapped part by part, what is no text is left empty.
unfoldable pub content_of : Option Json → Content
unfolding part_of
content_of none = absent
content_of (some null) = absent
content_of (some (str t)) = plain t
content_of (some (arr js)) = parts (flatten (map part_of (dicts (to_list js))))
content_of (some _) = parts []

-- A chat message by its role.
abbrev pub message_of : Text → Content → Message
message_of role c =
    if elem role (codes "system" ∷ codes "developer" ∷ [])
    then system c
    else if text_beq role (codes "user")
    then user c
    else if text_beq role (codes "assistant")
    then assistant c []
    else if text_beq role (codes "tool")
    then tool c []
    else unknown

-- `json.dumps(v, ensure_ascii=False)`
module _ (dumps : Json → Text) where
  -- `_json_or_str`
  abbrev pub json_or_str : Option Json → Text → Text
  json_or_str none default = default
  json_or_str (some null) default = default
  json_or_str (some (str t)) default = t
  json_or_str (some j) default = dumps j

  -- The arguments that a call item stands for; freeform input is wrapped as one parameter.
  unfoldable pub arguments_of : Text → Fields → Text
  unfolding get
  arguments_of kind it =
      if text_beq kind (codes "custom_tool_call")
      then dumps (obj (field (codes "input") (str (json_or_str (get (codes "input") it) [])) end))
      else if text_beq kind (codes "function_call")
      then json_or_str (get (codes "arguments") it) []
      else json_or_str (get (codes "action") it) (codes "{}")

  -- What a tool answered, as a text.
  unfoldable pub output_of : Option Json → Text
  unfolding text_or
  output_of (some (arr js)) =
      join (10 ∷ []) (map (λ fs. text_or (codes "text") fs []) (dicts (to_list js)))
  output_of o = json_or_str o []

  abbrev pub call_id_of : Fields → Text
  call_id_of it = text_or (codes "call_id") it (text_or (codes "id") it [])

  -- `it.get("type") or ("message" if it.get("role") else None)`
  unfoldable pub kind_of : Fields → Text
  unfolding text_or
  kind_of it =
      text_or (codes "type") it
        (if is_empty (text_or (codes "role") it []) then [] else codes "message")

  unfoldable pub item_messages : Fields → List Message
  unfolding kind_of text_or text_at get content_of arguments_of output_of
  item_messages it =
      let kind = kind_of it in
      if text_beq kind (codes "message")
      then message_of (elim (text_at (codes "role") it) [ none ↦ codes "user" | some r ↦ r ])
          (content_of (get (codes "content") it))
        ∷ []
      else if elem kind call_items
      then assistant absent (
          record {
            id = call_id_of it;
            name = text_or (codes "name") it kind;
            arguments = arguments_of kind it;
          }
          ∷ [])
        ∷ []
      else if elem kind out_items
      then tool (plain (output_of (get (codes "output") it))) (call_id_of it) ∷ []
      else []

  -- `items_to_messages`
  unfoldable pub items_to_messages : List Fields → List Message
  unfolding item_messages
  items_to_messages [] = []
  items_to_messages (it ∷ its) = item_messages it ++ items_to_messages its
