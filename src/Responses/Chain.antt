-- ===== src/Responses/Chain.antt =====
-- Stored responses and the requests that continue them: `save_response`, `get_response` and
-- `delete_response` of devin_proxy/store.py, `to_chat_body` of devin_proxy/responses.py. The table
-- is a dict by the response's id.
pub mod Continued
pub mod Replay
use devin_proxy.Prelude.{
  Text, codes, Bool, true, false, Option, none, some, List, [], ◌∷◌, ◌++◌, Dict, lookup, insert,
  remove, text_eq, is_empty, if◌then◌else◌, or_else,
}
use devin_proxy.Data.{Json, Fields, null, str, arr, obj, get, if_truthy, as_text, Try, done, raised}
use devin_proxy.App.Messages.{Message, system}
use devin_proxy.Responses.Input.{
  text_or, dicts, to_list, normalize_input, resolve_refs, items_to_messages, content_of,
}
use devin_proxy.Responses.Output.{Tool, norm_tools, norm_tool_choice, get_default}
use devin_proxy.Responses.Reply.{Saved}

abbrev pub Table : Type 0
Table = Dict Text Saved

unfoldable pub save_response : Saved → Table → Table
unfolding insert
save_response s t = insert s.rid s t

unfoldable pub get_response : Text → Table → Option Saved
unfolding lookup
get_response rid t = lookup rid t

-- the table, and whether a row was deleted
unfoldable pub delete_response : Text → Table → Table × Bool
unfolding remove lookup
delete_response rid t = (remove rid t, elim (lookup rid t) [ none ↦ false | some s ↦ true ])

-- The request in the shape of a chat completion.
pub record ChatBody : Type 0 where
  pub model : Json
  pub messages : List Message
  pub tools : List Tool
  pub tool_choice : Json
  pub stream : Json
  pub temperature : Json
  pub top_p : Json
  pub max_tokens : Json
  pub reasoning : Json
  pub user : Json
  pub session_id : Json
  pub metadata : Json

-- A mapped request: the chat body, the items it is made of, and the key of its chain.
pub record Mapped : Type 0 where
  pub chat : ChatBody
  pub items : List Fields
  pub chain : Option Text

-- The conversation's id: a text, or the `id` of a dict.
abbrev pub conversation_of : Option Json → Text
conversation_of (some (str t)) = t
conversation_of (some (obj d)) = or_else (as_text (get (codes "id") d)) []
conversation_of _ = []

-- `skey or f"conv:{conv}"` if there is a conversation
abbrev pub chain_of : Option Text → Text → Option Text
chain_of skey [] = skey
chain_of (some (c ∷ s)) (d ∷ conv) = some (c ∷ s)
chain_of _ (d ∷ conv) = some (codes "conv:" ++ (d ∷ conv))

-- The items of a JSON list.
abbrev pub items_of : Json → List Fields
items_of (arr js) = dicts (to_list js)
items_of _ = []

module _ (loads : Text → Option Json) (dumps : Json → Text) where
  abbrev pub pass : Text → Fields → Json
  pass k body = get_default k body null

  unfoldable pub chat_of : Fields → List Fields → ChatBody
  unfolding items_to_messages content_of get norm_tools norm_tool_choice
  chat_of body items =
      let messages = items_to_messages dumps items in
      record {
        model = pass (codes "model") body;
        messages = elim (if_truthy (get (codes "instructions") body)) [
          | none ↦ messages
          | some i ↦ system (content_of (some i)) ∷ messages
        ];
        tools = norm_tools (get (codes "tools") body);
        tool_choice = norm_tool_choice (get (codes "tool_choice") body);
        stream = pass (codes "stream") body;
        temperature = pass (codes "temperature") body;
        top_p = pass (codes "top_p") body;
        max_tokens = pass (codes "max_output_tokens") body;
        reasoning = pass (codes "reasoning") body;
        user = pass (codes "user") body;
        session_id = pass (codes "session_id") body;
        metadata = pass (codes "metadata") body;
      }

  abbrev pub map_body : Fields → List Fields → Option Text → Mapped
  map_body body prev skey =
      let given = prev ++ normalize_input (get (codes "input") body) in
      let items = resolve_refs given given in
      record {
        chat = chat_of body items;
        items = items;
        chain = chain_of skey (conversation_of (get (codes "conversation") body));
      }

  -- `json.loads` raises where the stored items cannot be read.
  abbrev pub continue_from : Fields → Option Text → Option Json → Try Mapped
  continue_from body skey none = raised (codes "JSONDecodeError")
  continue_from body skey (some j) = done (map_body body (items_of j) skey)

  -- A response that is not found is a ValueError.
  abbrev pub continue_with : Text → Fields → Option Saved → Try Mapped
  continue_with id body none = raised (codes "Previous response '" ++ (id ++ codes "' not found"))
  continue_with id body (some s) = continue_from body s.session (loads s.items_json)

  -- `to_chat_body`
  unfoldable pub to_chat_body : Table → Fields → Try Mapped
  unfolding text_or get_response normalize_input resolve_refs chat_of get
  to_chat_body t body =
      let id = text_or (codes "previous_response_id") body [] in
      if is_empty id
      then done (map_body body [] none)
      else continue_with id body (get_response id t)
