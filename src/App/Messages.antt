-- ===== src/App/Messages.antt =====
-- From chat messages to upstream prompts: `msg_parts` and `map_messages` of devin_proxy/app.py,
-- `make_prompt` of devin_proxy/upstream.py.
pub mod Merging
pub mod Answers
use devin_proxy.Prelude.{
  ℕ, zero, suc, Text, codes, Bool, true, false, Option, none, some, List, [], ◌∷◌, ◌++◌, map, keep,
  take, drop, elem, join, if◌then◌else◌, or_else, text_eq, is_empty, starts_with, count_char,
  nat_beq, ltb, ◌&&◌, ◌||◌, not,
}
use devin_proxy.Data.{ChatToolCall}
use devin_proxy.Models.Names.{partition}

pub record Image : Type 0 where
  pub mime : Text
  pub base64 : Text

-- A part of a message's content: a text, an image by its URL, or what is skipped.
pub data Part : Type 0 where
  text_part : Option Text → Part
  image_part : Text → Part
  other_part : Part

pub data Content : Type 0 where
  absent : Content
  plain : Text → Content
  parts : List Part → Content

-- The messages by role; the calls of an assistant are those of `tool_calls`.
pub data Message : Type 0 where
  system : Content → Message
  user : Content → Message
  assistant : Content → List ChatToolCall → Message
  tool : Content → Text → Message
  unknown : Message

pub data Source : Type 0 where
  from_user from_assistant from_tool : Source

pub record Prompt : Type 0 where
  pub source : Source
  pub prompt : Text
  pub tool_call_id : Text
  pub tool_calls : List ChatToolCall
  pub images : List Image
  pub thinking : Text

unfoldable pub image_of : Text → List Image
unfolding starts_with count_char partition
image_of url =
    if starts_with url (codes "data:") && ltb 0 (count_char b',' url)
    then record {
      mime =
          if ltb 0 (count_char b';' (take 30 url))
          then (partition b';' (drop 5 url)).0
          else codes "image/png";
      base64 = (partition b',' url).1;
    }
      ∷ []
    else []

texts_of : List Part → List Text
texts_of [] = []
texts_of (text_part t ∷ ps) = or_else t [] ∷ texts_of ps
texts_of (image_part url ∷ ps) = texts_of ps
texts_of (other_part ∷ ps) = texts_of ps

images_of : List Part → List Image
unfolding image_of
images_of [] = []
images_of (text_part t ∷ ps) = images_of ps
images_of (image_part url ∷ ps) = image_of url ++ images_of ps
images_of (other_part ∷ ps) = images_of ps

unfoldable pub msg_parts : Content → Text × List Image
unfolding texts_of images_of
msg_parts absent = ([], [])
msg_parts (plain t) = (t, [])
msg_parts (parts ps) = (join (10 ∷ []) (texts_of ps), images_of ps)

-- `make_prompt`, with the defaults of the arguments that a role leaves out
abbrev pub make_prompt : Source → Text → Text → List ChatToolCall → List Image → Prompt
make_prompt s t cid calls imgs = record {
  source = s;
  prompt = t;
  tool_call_id = cid;
  tool_calls = calls;
  images = imgs;
  thinking = [];
}

unfoldable pub system_texts : List Message → List Text
unfolding msg_parts
system_texts [] = []
system_texts (system c ∷ ms) =
    if is_empty (msg_parts c).0 then system_texts ms else (msg_parts c).0 ∷ system_texts ms
system_texts (user c ∷ ms) = system_texts ms
system_texts (assistant c tcs ∷ ms) = system_texts ms
system_texts (tool c cid ∷ ms) = system_texts ms
system_texts (unknown ∷ ms) = system_texts ms

unfoldable pub to_prompts : List Message → List Prompt
unfolding msg_parts
to_prompts [] = []
to_prompts (system c ∷ ms) = to_prompts ms
to_prompts (user c ∷ ms) =
    make_prompt from_user (msg_parts c).0 [] [] (msg_parts c).1 ∷ to_prompts ms
to_prompts (assistant c tcs ∷ ms) =
    make_prompt from_assistant (msg_parts c).0 [] tcs [] ∷ to_prompts ms
to_prompts (tool c cid ∷ ms) = make_prompt from_tool (msg_parts c).0 cid [] [] ∷ to_prompts ms
to_prompts (unknown ∷ ms) = to_prompts ms

-- Adjacent prompts of these sources are coalesced.
abbrev pub coalesce : Source → Source → Bool
coalesce from_user from_user = true
coalesce from_assistant from_assistant = true
coalesce _ _ = false

-- `a + sep + b if a else b`, and `a` where `b` is empty
abbrev pub joined : Text → Text → Text → Text
joined sep a [] = a
joined sep [] (c ∷ b) = c ∷ b
joined sep (d ∷ a) (c ∷ b) = (d ∷ a) ++ (sep ++ (c ∷ b))

-- What the last prompt becomes.
abbrev pub absorb : Prompt → Prompt → Prompt
absorb last p = record last {
  prompt = joined (10 ∷ 10 ∷ []) last.prompt p.prompt;
  images = last.images ++ p.images;
  tool_calls = last.tool_calls ++ p.tool_calls;
  thinking = joined (10 ∷ []) last.thinking p.thinking;
}

-- The loop over the prompts, `last` being the last of `merged`.
unfoldable pub merge_from : Prompt → List Prompt → List Prompt
merge_from last [] = last ∷ []
merge_from last (p ∷ ps) = elim (coalesce p.source last.source) [
  | true ↦ merge_from (absorb last p) ps
  | false ↦ last ∷ merge_from p ps
]

unfoldable pub merge : List Prompt → List Prompt
unfolding merge_from
merge [] = []
merge (p ∷ ps) = merge_from p ps

abbrev pub has_content : Prompt → Bool
has_content p = not (
    is_empty p.prompt
    && is_empty p.images
    && is_empty p.tool_calls
    && is_empty p.thinking
    && is_empty p.tool_call_id)

abbrev pub ids_of : Prompt → List Text
ids_of p = map (λ (c : ChatToolCall). c.id) p.tool_calls

-- The loop that drops tool results without a call, `seen` being the ids of the calls so far.
unfoldable pub answered : List Text → List Prompt → List Prompt
answered seen [] = []
answered seen (p ∷ ps) = elim p.source [
  | from_user ↦ p ∷ answered seen ps
  | from_assistant ↦ p ∷ answered (seen ++ ids_of p) ps
  | from_tool ↦ elim (is_empty p.tool_call_id || elem p.tool_call_id seen) [
    | true ↦ p ∷ answered seen ps
    | false ↦ answered seen ps
  ]
]

-- `map_messages`: the system prompt (`none` where there is none) and the prompts. The ids that it
-- stamps on them are left out: they are a hash of the rest.
unfoldable pub map_messages : List Message → Option Text × List Prompt
unfolding system_texts to_prompts merge answered
map_messages ms = (
  elim (join (10 ∷ 10 ∷ []) (system_texts ms)) [ [] ↦ none | c ∷ t ↦ some (c ∷ t) ],
  answered [] (keep has_content (merge (to_prompts ms))),
)
