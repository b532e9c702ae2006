-- ===== src/Responses/Chain/Replay.antt =====
-- What was answered, as the next request sees it: `output_items` and `items_to_messages` of
-- devin_proxy/responses.py, `map_messages` of devin_proxy/app.py.
use devin_proxy.Prelude.{
  ℕ, suc, Text, codes, Bool, true, false, ◌≡◌, refl, ap, sym, ◌∙◌, Option, some, List, [], ◌∷◌,
  ◌++◌, map, keep, All, elem, not, ◌||◌, is_empty, text_eq, text_beq, or_else, if◌then◌else◌,
  append_assoc, append-nil, join,
}
use devin_proxy.Data.{ChatToolCall, Json, str, obj, field, end, get}
use devin_proxy.App.ToolAgg.{Call, ToolAgg, call_of}
use devin_proxy.App.Messages.{
  assistant, absent, Prompt, make_prompt, from_assistant, to_prompts, merge, merge_from,
  has_content, answered, map_messages, msg_parts, joined,
}
use devin_proxy.Responses.Input.{
  items_to_messages, item_messages, kind_of, text_at, text_or, content_of, part_of, arguments_of,
}
use devin_proxy.Responses.Output.{
  Ids, Item, completed, message, custom_call, function_call, item_fields, output_items, call_item,
  call_items_of, unwrap_input,
}

or_else_self : (t : Text) → or_else (some t) [] ≡ t
or_else_self [] = refl
or_else_self (c ∷ t) = refl

or_else-some : (t d : Text) → is_empty t ≡ false → or_else (some t) d ≡ t
or_else-some [] d h = cc
or_else-some (c ∷ t) d h = refl

-- A call with its id and its name.
abbrev pub IsNamed : Call → Type 0
IsNamed c = (is_empty c.id ≡ false) × (is_empty c.name ≡ false)

module _ (loads : Text → Option Json) (dumps : Json → Text) (ids : Ids) (custom : List Text) where
  -- The call that the next request makes of a call: freeform input is wrapped again.
  abbrev pub replayed : Call → ChatToolCall
  replayed c = record {
    id = c.id;
    name = c.name;
    arguments =
        if elem c.name custom
        then dumps (obj (field (codes "input") (str (unwrap_input loads c.args)) end))
        else c.args;
  }

  named_call :
      (id kind args : Text) (c : Call)
      → IsNamed c
      → assistant absent (
            record {
              id = or_else (some c.id) (or_else (some id) []);
              name = or_else (some c.name) kind;
              arguments = args;
            }
            ∷ [])
          ∷ []
        ≡ assistant absent (record { id = c.id; name = c.name; arguments = args } ∷ []) ∷ []
  named_call id kind args c h =
      rw (or_else-some c.id (or_else (some id) []) h.0, or_else-some c.name kind h.1) refl

  call_item-messages :
      (id : Text) (c : Call)
      → IsNamed c
      → item_messages dumps (item_fields (call_item loads ids custom id c))
        ≡ assistant absent (replayed c ∷ []) ∷ []
  unfolding item_messages item_fields kind_of text_at text_or get arguments_of text_beq
  call_item-messages id c h = by_custom (elem c.name custom)
    where
      by_custom :
          (b : Bool)
          → item_messages dumps (
              item_fields (
                if b
                then custom_call id completed c.id c.name (unwrap_input loads c.args)
                else function_call id completed c.id c.name c.args))
            ≡ assistant absent (
                record {
                  id = c.id;
                  name = c.name;
                  arguments =
                      if b
                      then dumps (obj (field (codes "input") (str (unwrap_input loads c.args)) end))
                      else c.args;
                }
                ∷ [])
              ∷ []
      by_custom true = named_call id (codes "custom_tool_call") _ c h
      by_custom false = named_call id (codes "function_call") c.args c h

  abbrev calls_of : ToolAgg → List Text → List ChatToolCall
  calls_of agg cids = map (λ cid. replayed (call_of agg cid)) cids

  -- A prompt of the assistant that makes these calls, and one that says a text.
  abbrev calling : List ChatToolCall → Prompt
  calling cs = make_prompt from_assistant [] [] cs []

  abbrev saying : Text → List ChatToolCall → Prompt
  saying t cs = make_prompt from_assistant t [] cs []

  -- The prompts of the items of calls, before what follows them.
  to_prompts-calls :
      (agg : ToolAgg) (n : ℕ) (cids : List Text) (rest : List Item)
      → All (λ cid. IsNamed (call_of agg cid)) cids
      → to_prompts (
          items_to_messages dumps
            (map item_fields (call_items_of loads ids custom agg n cids ++ rest)))
        ≡ map (λ c. calling (c ∷ [])) (calls_of agg cids)
          ++ to_prompts (items_to_messages dumps (map item_fields rest))
  unfolding items_to_messages call_items_of to_prompts
  to_prompts-calls agg n [] rest h = refl
  to_prompts-calls agg n (cid ∷ cids) rest h =
      ap
        (λ ms. to_prompts (
          ms
          ++ items_to_messages dumps
              (map item_fields (call_items_of loads ids custom agg (suc n) cids ++ rest))))
        (call_item-messages (ids (codes "fc") n) (call_of agg cid) h.0)
      ∙ ap (◌∷◌ (calling (replayed (call_of agg cid) ∷ [])))
          (to_prompts-calls agg (suc n) cids rest h.1)

  -- Adjacent prompts of calls are merged into one.
  merge_from-calls :
      (before cs : List ChatToolCall) (rest : List Prompt)
      → merge_from (calling before) (map (λ c. calling (c ∷ [])) cs ++ rest)
        ≡ merge_from (calling (before ++ cs)) rest
  unfolding merge_from
  merge_from-calls before [] rest =
      ap (λ cs. merge_from (calling cs) rest) (sym (append-nil before))
  merge_from-calls before (c ∷ cs) rest =
      merge_from-calls (before ++ c ∷ []) cs rest
      ∙ ap (λ cs. merge_from (calling cs) rest) (append_assoc before (c ∷ []) cs)

  to_prompts-text :
      (n : ℕ) (t : Text)
      → to_prompts (
          items_to_messages dumps
            (map item_fields (message (ids (codes "msg") n) completed (t ∷ []) ∷ [])))
        ≡ saying t [] ∷ []
  unfolding items_to_messages item_messages item_fields kind_of text_at text_or get content_of
      part_of to_prompts msg_parts join text_beq
  to_prompts-text n t =
      ap (λ x. saying x [] ∷ []) (ap (λ x. or_else (some x) []) (or_else_self t) ∙ or_else_self t)

  joined_self : (sep t : Text) → joined sep [] t ≡ t
  joined_self sep [] = refl
  joined_self sep (c ∷ t) = refl

  merge_from-text :
      (cs : List ChatToolCall) (t : Text)
      → merge_from (calling cs) (saying t [] ∷ []) ≡ saying t cs ∷ []
  unfolding merge_from
  merge_from-text cs t =
      ap (λ x. saying x (cs ++ []) ∷ []) (joined_self (10 ∷ 10 ∷ []) t)
      ∙ ap (λ x. saying t x ∷ []) (append-nil cs)

  merge-answer :
      (agg : ToolAgg) (n : ℕ) (t : Text) (cids : List Text)
      → All (λ cid. IsNamed (call_of agg cid)) cids
      → (not (is_empty t) || not (is_empty cids)) ≡ true
      → merge (
          to_prompts (
            items_to_messages dumps (
              map item_fields (
                call_items_of loads ids custom agg n cids
                ++ (if not (is_empty t) || is_empty cids
                    then message (ids (codes "msg") n) completed (t ∷ []) ∷ []
                    else [])))))
        ≡ saying t (calls_of agg cids) ∷ []
  unfolding merge call_items_of to_prompts items_to_messages
  merge-answer agg n [] [] h e = cc
  merge-answer agg n (c ∷ t) [] h e = ap merge (to_prompts-text n (c ∷ t))
  merge-answer agg n [] (cid ∷ cids) h e =
      ap merge (to_prompts-calls agg n (cid ∷ cids) [] h)
      ∙ merge_from-calls (replayed (call_of agg cid) ∷ []) (calls_of agg cids) []
  merge-answer agg n (c ∷ t) (cid ∷ cids) h e =
      ap merge (
        to_prompts-calls agg n (cid ∷ cids)
          (message (ids (codes "msg") n) completed ((c ∷ t) ∷ []) ∷ []) h)
      ∙ ap (λ ps. merge (map (λ x. calling (x ∷ [])) (calls_of agg (cid ∷ cids)) ++ ps))
          (to_prompts-text n (c ∷ t))
      ∙ merge_from-calls (replayed (call_of agg cid) ∷ []) (calls_of agg cids)
          (saying (c ∷ t) [] ∷ [])
      ∙ merge_from-text (calls_of agg (cid ∷ cids)) (c ∷ t)

  kept :
      (agg : ToolAgg) (t : Text) (cids : List Text)
      → (not (is_empty t) || not (is_empty cids)) ≡ true
      → answered [] (keep has_content (saying t (calls_of agg cids) ∷ []))
        ≡ saying t (calls_of agg cids) ∷ []
  unfolding answered
  kept agg [] [] e = cc
  kept agg (c ∷ t) cids e = refl
  kept agg [] (cid ∷ cids) e = refl

  no_reasoning :
      (n : ℕ) (text think : Text) (agg : ToolAgg)
      → items_to_messages dumps (map item_fields (output_items loads ids custom n text think agg))
        ≡ items_to_messages dumps (map item_fields (output_items loads ids custom n text [] agg))
  unfolding output_items items_to_messages item_messages item_fields kind_of text_or text_at get
      text_beq
  no_reasoning n text [] agg = refl
  no_reasoning n text (c ∷ think) agg = refl

  -- The items that answer a request, given back in the next one, are sent upstream as one prompt of
  -- the assistant: it says the answer's text and makes the answer's calls, in their order, with the
  -- freeform input of a custom tool wrapped again; the reasoning is left out. The calls are to have ids
  -- and names, and the answer a text or a call.
  pub map_messages-output_items :
      (n : ℕ) (text think : Text) (agg : ToolAgg)
      → All (λ cid. IsNamed (call_of agg cid)) agg.order
      → (not (is_empty text) || not (is_empty agg.order)) ≡ true
      → (map_messages (
          items_to_messages dumps
            (map item_fields (output_items loads ids custom n text think agg)))).1
        ≡ make_prompt from_assistant text [] (map (λ cid. replayed (call_of agg cid)) agg.order) []
          ∷ []
  unfolding map_messages output_items
  map_messages-output_items n text think agg h e =
      ap (λ ms. (map_messages ms).1) (no_reasoning n text think agg)
      ∙ ap (λ ps. answered [] (keep has_content ps)) (merge-answer agg n text agg.order h e)
      ∙ kept agg text agg.order e
