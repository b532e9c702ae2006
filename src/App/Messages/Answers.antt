-- ===== src/App/Messages/Answers.antt =====
-- Tool results and their calls.
use devin_proxy.Prelude.{
  Text, Bool, true, false, ◌≡◌, refl, ap, sym, ◌∙◌, List, [], ◌++◌, elem, text_eq, is_empty, keep,
  append_assoc, append-nil, subst, ◌||◌, ◌∷◌,
}
use devin_proxy.App.Messages.{
  Prompt, Source, from_user, from_assistant, from_tool, ids_of, answered, Message, map_messages,
  merge, to_prompts, has_content,
}

-- The ids of the calls that a prompt makes: only an assistant's count.
abbrev pub own_ids : Prompt → List Text
own_ids p = elim p.source [ from_user ↦ [] | from_assistant ↦ ids_of p | from_tool ↦ [] ]

abbrev pub call_ids : List Prompt → List Text
call_ids [] = []
call_ids (p ∷ ps) = own_ids p ++ call_ids ps

head_eq : {a b : Prompt} {xs ys : List Prompt} → a ∷ xs ≡ b ∷ ys → a ≡ b
head_eq h = cc

tail_eq : {a b : Prompt} {xs ys : List Prompt} → a ∷ xs ≡ b ∷ ys → xs ≡ ys
tail_eq h = cc

abbrev HasCall : List Text → Prompt → Type 0
HasCall seen q =
    q.source ≡ from_tool → is_empty q.tool_call_id ≡ false → elem q.tool_call_id seen ≡ true

-- A prompt that is kept: it has its call if it is a tool result, and what follows has its calls.
kept :
    (seen next : List Text) (q : Prompt) (rest xs ys : List Prompt) (p : Prompt)
    → q ∷ rest ≡ xs ++ p ∷ ys
    → p.source ≡ from_tool
    → is_empty p.tool_call_id ≡ false
    → next ≡ seen ++ own_ids q
    → HasCall seen q
    → ((zs : List Prompt) → rest ≡ zs ++ p ∷ ys → elem p.tool_call_id (next ++ call_ids zs) ≡ true)
    → elem p.tool_call_id (seen ++ call_ids xs) ≡ true
kept seen next q rest [] ys p h t n d ok ih =
    subst (λ l. elem p.tool_call_id l ≡ true) (sym (append-nil seen))
      (subst (HasCall seen) (head_eq h) ok t n)
kept seen next q rest (x ∷ xs) ys p h t n d ok ih =
    subst (λ l. elem p.tool_call_id l ≡ true)
      (ap (λ l. l ++ call_ids xs) d
        ∙ append_assoc seen (own_ids q) (call_ids xs)
        ∙ ap (λ y. seen ++ (own_ids y ++ call_ids xs)) (head_eq h))
      (ih xs (tail_eq h))

not_user : {A : Type 0} → from_user ≡ from_tool → A
not_user h = cc

not_assistant : {A : Type 0} → from_assistant ≡ from_tool → A
not_assistant h = cc

no_split : (xs ys : List Prompt) (p : Prompt) {A : Type 0} → [] ≡ xs ++ p ∷ ys → A
no_split [] ys p h = cc
no_split (x ∷ xs) ys p h = cc

elem-answered :
    (seen : List Text) (ps xs ys : List Prompt) (p : Prompt)
    → answered seen ps ≡ xs ++ p ∷ ys
    → p.source ≡ from_tool
    → is_empty p.tool_call_id ≡ false
    → elem p.tool_call_id (seen ++ call_ids xs) ≡ true
unfolding answered
elem-answered seen [] xs ys p h t n = no_split xs ys p h
elem-answered seen (q ∷ ps) xs ys p h t n =
    by_source q.source refl (λ s zs g. elem-answered s ps zs ys p g t n) h
  where
    by_known :
        (b : Bool)
        → (is_empty q.tool_call_id || elem q.tool_call_id seen) ≡ b
        → q.source ≡ from_tool
        → ((zs : List Prompt)
            → answered seen ps ≡ zs ++ p ∷ ys
            → elem p.tool_call_id (seen ++ call_ids zs) ≡ true)
        → answered seen (q ∷ ps) ≡ xs ++ p ∷ ys
        → elem p.tool_call_id (seen ++ call_ids xs) ≡ true
    by_known true f e ih g =
        kept seen seen q (answered seen ps) xs ys p (rw (e, f, answered) at g) t n
          (rw e (sym (append-nil seen))) (λ _ m. rw m at f) ih
    by_known false f e ih g = ih xs (rw (e, f, answered) at g)

    by_source :
        (s : Source)
        → q.source ≡ s
        → ((s : List Text) (zs : List Prompt)
            → answered s ps ≡ zs ++ p ∷ ys
            → elem p.tool_call_id (s ++ call_ids zs) ≡ true)
        → answered seen (q ∷ ps) ≡ xs ++ p ∷ ys
        → elem p.tool_call_id (seen ++ call_ids xs) ≡ true
    by_source from_user e ih g =
        kept seen seen q (answered seen ps) xs ys p (rw (e, answered) at g) t n
          (rw e (sym (append-nil seen))) (λ k. not_user (sym e ∙ k)) (ih seen)
    by_source from_assistant e ih g =
        kept seen (seen ++ ids_of q) q (answered (seen ++ ids_of q) ps) xs ys p
          (rw (e, answered) at g) t n (rw e refl) (λ k. not_assistant (sym e ∙ k))
          (ih (seen ++ ids_of q))
    by_source from_tool e ih g =
        by_known (is_empty q.tool_call_id || elem q.tool_call_id seen) refl e (ih seen) g

-- Every tool result with an id that `map_messages` keeps has, before it in the prompts that are
-- sent, an assistant's prompt with the call of that id.
pub map_messages-Answered :
    (ms : List Message) (xs ys : List Prompt) (p : Prompt)
    → (map_messages ms).1 ≡ xs ++ p ∷ ys
    → p.source ≡ from_tool
    → is_empty p.tool_call_id ≡ false
    → elem p.tool_call_id (call_ids xs) ≡ true
unfolding map_messages
map_messages-Answered ms xs ys p h t n =
    elem-answered [] (keep has_content (merge (to_prompts ms))) xs ys p h t n
