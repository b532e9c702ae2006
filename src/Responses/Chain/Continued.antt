-- ===== src/Responses/Chain/Continued.antt =====
-- A stored response and the request that continues it, in devin_proxy/responses.py.
use devin_proxy.Prelude.{
  ℕ, Text, codes, false, ◌≡◌, refl, ap, ◌∙◌, Option, some, List, [], ◌∷◌, ◌++◌, map, All,
  lookup-insert, text_eq, text_beq, is_empty, ==_self,
}
use devin_proxy.Data.{Json, Fields, done, get, obj}
use devin_proxy.Responses.Input.{text_or, dicts, to_list, resolve_refs, normalize_input}
use devin_proxy.Responses.Output.{dicts_json, to_items, is_false}
use devin_proxy.Responses.Reply.{Job, Saved, persist, saved_of}
use devin_proxy.Responses.Chain.{
  Table, save_response, get_response, Mapped, to_chat_body, map_body, chat_of, conversation_of,
  chain_of, continue_with, continue_from,
}

-- No item refers to another.
abbrev pub NoReference : List Fields → Type 0
NoReference = All (λ it. text_beq (text_or (codes "type") it []) (codes "item_reference") ≡ false)

resolve_refs_lem :
    (index items : List Fields) → NoReference items → resolve_refs index items ≡ items
unfolding resolve_refs
resolve_refs_lem index [] h = refl
resolve_refs_lem index (it ∷ its) h = rw (h.0, resolve_refs_lem index its h.1) refl

dicts_back : (items : List Fields) → dicts (to_list (to_items (map obj items))) ≡ items
dicts_back [] = refl
dicts_back (i ∷ is) = ap (◌∷◌ i) (dicts_back is)

get-save_response : (s : Saved) (t : Table) → get_response s.rid (save_response s t) ≡ some s
unfolding get_response save_response
get-save_response s t = lookup-insert s.rid s.rid s t ∙ rw (==_self s.rid) refl

abbrev pub save_all : List Saved → Table → Table
save_all [] t = t
save_all (s ∷ ss) t = save_all ss (save_response s t)

module _ (loads : Text → Option Json) (dumps : Json → Text) where
  -- What a request is mapped to when `items` are all that it stands for.
  abbrev pub mapped : Fields → List Fields → Option Text → Mapped
  mapped body items skey = record {
    chat = chat_of loads dumps body items;
    items = items;
    chain = chain_of skey (conversation_of (get (codes "conversation") body));
  }

  map_body_lem :
      (body : Fields) (prev : List Fields) (skey : Option Text)
      → NoReference (prev ++ normalize_input (get (codes "input") body))
      → map_body loads dumps body prev skey
        ≡ mapped body (prev ++ normalize_input (get (codes "input") body)) skey
  map_body_lem body prev skey h =
      ap (λ items. mapped body items skey)
        (resolve_refs_lem _ (prev ++ normalize_input (get (codes "input") body)) h)

  continue_with-some :
      (id : Text) (body : Fields) (s : Saved) (items : List Fields)
      → loads s.items_json ≡ some (dicts_json items)
      → NoReference (items ++ normalize_input (get (codes "input") body))
      → continue_with loads dumps id body (some s)
        ≡ done (mapped body (items ++ normalize_input (get (codes "input") body)) s.session)
  continue_with-some id body s items e h =
      ap (continue_from loads dumps body s.session) e
      ∙ ap (λ is. done (map_body loads dumps body is s.session)) (dicts_back items)
      ∙ ap done (map_body_lem body items s.session h)

-- A response with an id, whose request does not forbid storing, is found again: a request that names it, and in
-- which no item is a reference, is mapped, if JSON reads back what it wrote of the first one's items, to the items that the first request was given, what was
-- answered, and the new input, in this order, and goes on in the first one's session.
pub to_chat_body-persist :
    (job : Job) (account : Option ℕ) (items_out : List Fields) (resp body : Fields) (t : Table)
    → job.loads (job.dumps (dicts_json (job.items_in ++ items_out)))
      ≡ some (dicts_json (job.items_in ++ items_out))
    → is_false (get (codes "store") job.body) ≡ false
    → text_or (codes "previous_response_id") body [] ≡ job.rid
    → is_empty job.rid ≡ false
    → NoReference ((job.items_in ++ items_out) ++ normalize_input (get (codes "input") body))
    → to_chat_body job.loads job.dumps (save_all (persist job account items_out resp) t) body
      ≡ done (
          mapped job.loads job.dumps body
            ((job.items_in ++ items_out) ++ normalize_input (get (codes "input") body))
            job.session)
unfolding to_chat_body persist
to_chat_body-persist job account items_out resp body t law stored named known free =
    let s = saved_of job account items_out resp in
    rw (stored, named, known)
      (ap (continue_with job.loads job.dumps job.rid body) (get-save_response s t)
        ∙ continue_with-some job.loads job.dumps job.rid body s (job.items_in ++ items_out) law
            free)
