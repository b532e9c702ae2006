-- ===== src/App/Messages/Merging.antt =====
-- Coalescing adjacent prompts.
use devin_proxy.Prelude.{
  true, false, ◌≡◌, refl, ap, sym, ◌∙◌, List, [], ◌∷◌, ◌++◌, append_assoc, Bool-cases, inl, inr,
  subst,
}
use devin_proxy.Data.{ChatToolCall}
use devin_proxy.App.Messages.{Source, Prompt, Image, coalesce, absorb, merge_from, merge}

-- No prompt of the list is coalesced with the one before it, `s` being the source before them.
abbrev pub AlternatesFrom : Source → List Prompt → Type 0
AlternatesFrom s [] = Unit
AlternatesFrom s (p ∷ ps) = (coalesce p.source s ≡ false) × AlternatesFrom p.source ps

abbrev pub Alternates : List Prompt → Type 0
Alternates [] = Unit
Alternates (p ∷ ps) = AlternatesFrom p.source ps

-- The list starts with a prompt of the source `s`, and alternates.
abbrev StartsWith : Source → List Prompt → Type 0
StartsWith s ps =
    (q : Prompt) × (r : List Prompt) × (ps ≡ q ∷ r) × (q.source ≡ s) × AlternatesFrom s r

follow :
    (s t : Source) (ps : List Prompt) → StartsWith t ps → coalesce t s ≡ false → AlternatesFrom s ps
follow s t ps h c =
    subst (AlternatesFrom s) (sym h.2)
      (subst (λ x. (coalesce x s ≡ false) × AlternatesFrom x h.1) (sym h.3) (c, h.4))

StartsWith-Alternates : (s : Source) (ps : List Prompt) → StartsWith s ps → Alternates ps
StartsWith-Alternates s ps h =
    subst Alternates (sym h.2) (subst (λ x. AlternatesFrom x h.1) (sym h.3) h.4)

merge_step_yes :
    (last p : Prompt) (ps : List Prompt)
    → coalesce p.source last.source ≡ true
    → merge_from last (p ∷ ps) ≡ merge_from (absorb last p) ps
unfolding merge_from
merge_step_yes last p ps e = rw (e, merge_from) refl

merge_step_no :
    (last p : Prompt) (ps : List Prompt)
    → coalesce p.source last.source ≡ false
    → merge_from last (p ∷ ps) ≡ last ∷ merge_from p ps
unfolding merge_from
merge_step_no last p ps e = rw (e, merge_from) refl

merge_from-StartsWith :
    (last : Prompt) (ps : List Prompt) → StartsWith last.source (merge_from last ps)
unfolding merge_from
merge_from-StartsWith last [] = (last, [], refl, refl, tt)
merge_from-StartsWith last (p ∷ ps) = elim (Bool-cases (coalesce p.source last.source)) [
  | inl e ↦ rw (merge_step_yes last p ps e) (merge_from-StartsWith (absorb last p) ps)
  | inr e ↦ rw (merge_step_no last p ps e) (
    last,
    merge_from p ps,
    refl,
    refl,
    follow last.source p.source (merge_from p ps) (merge_from-StartsWith p ps) e,
  )
]

-- The sequence of all tool calls, and that of all images, over a list of prompts.
abbrev pub calls_in : List Prompt → List ChatToolCall
calls_in [] = []
calls_in (p ∷ ps) = p.tool_calls ++ calls_in ps

abbrev pub images_in : List Prompt → List Image
images_in [] = []
images_in (p ∷ ps) = p.images ++ images_in ps

calls_in-merge_from :
    (last : Prompt) (ps : List Prompt)
    → calls_in (merge_from last ps) ≡ last.tool_calls ++ calls_in ps
unfolding merge_from
calls_in-merge_from last [] = refl
calls_in-merge_from last (p ∷ ps) = elim (Bool-cases (coalesce p.source last.source)) [
  | inl e ↦
      ap calls_in (merge_step_yes last p ps e)
      ∙ (calls_in-merge_from (absorb last p) ps
          ∙ append_assoc last.tool_calls p.tool_calls (calls_in ps))
  | inr e ↦
      ap calls_in (merge_step_no last p ps e)
      ∙ ap (λ c. last.tool_calls ++ c) (calls_in-merge_from p ps)
]

images_in-merge_from :
    (last : Prompt) (ps : List Prompt)
    → images_in (merge_from last ps) ≡ last.images ++ images_in ps
unfolding merge_from
images_in-merge_from last [] = refl
images_in-merge_from last (p ∷ ps) = elim (Bool-cases (coalesce p.source last.source)) [
  | inl e ↦
      ap images_in (merge_step_yes last p ps e)
      ∙ (images_in-merge_from (absorb last p) ps ∙ append_assoc last.images p.images (images_in ps))
  | inr e ↦
      ap images_in (merge_step_no last p ps e)
      ∙ ap (λ c. last.images ++ c) (images_in-merge_from p ps)
]

-- Behind the merging, no two adjacent prompts are both the user's or both the assistant's, and
-- the tool calls and the images of the prompts are the same ones in the same order.
pub merge-Alternates :
    (ps : List Prompt)
    → Alternates (merge ps)
      × (calls_in (merge ps) ≡ calls_in ps)
      × (images_in (merge ps) ≡ images_in ps)
unfolding merge
merge-Alternates [] = (tt, refl, refl)
merge-Alternates (p ∷ ps) = (
  StartsWith-Alternates p.source (merge_from p ps) (merge_from-StartsWith p ps),
  calls_in-merge_from p ps,
  images_in-merge_from p ps,
)
