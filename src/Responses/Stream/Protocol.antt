-- ===== src/Responses/Stream/Protocol.antt =====
-- The protocol of the Responses API's event stream, which `_sse` of devin_proxy/responses.py
-- follows: an abstract machine that knows what is open and what has been said, and reads frames.
use devin_proxy.Prelude.{ℕ, suc, Text, Bool, true, false, ◌≡◌, List, [], ◌∷◌, ◌++◌, elem, text_eq}
use devin_proxy.Data.{Fields}
use devin_proxy.Responses.Output.{Item, reasoning, message, function_call, custom_call, completed}
use devin_proxy.Responses.Stream.{
  Sse, Frame, before, framed, done_line, in_progress, response_created, response_in_progress,
  response_completed, response_failed, item_added, item_done, summary_added, text_added,
  summary_delta, summary_text_done, summary_part_done, text_delta, text_done, text_part_done,
  call_delta, call_done, error_event,
}

-- How far the stream has come: before its first event, announced, between two items, in an item, at
-- its end. An item's phases follow its events; they hold the item's id, and whether a call is custom.
pub data Phase : Type 0 where
  fresh announced idle failing over finished : Phase
  reasoning_added reasoning_open reasoning_said reasoning_closed : Text → Phase
  message_added message_open message_said message_closed : Text → Phase
  call_open : Bool → Text → Phase
  call_said : Bool → Text → Text → Phase

-- What a client knows: the phase, the number of items so far, all the text and all the reasoning of
-- the deltas so far, and the ids of the items of calls.
pub record View : Type 0 where
  pub phase : Phase
  pub opened : ℕ
  pub text : Text
  pub think : Text
  pub calls : List Text

abbrev pub initial : View
initial = record { phase = fresh; opened = 0; text = []; think = []; calls = [] }

-- An item is open in which deltas may come.
pub data IsOpen : Phase → Type 0 where
  open_reasoning : {id : Text} → IsOpen (reasoning_open id)
  open_message : {id : Text} → IsOpen (message_open id)
  open_call : {custom : Bool} {id : Text} → IsOpen (call_open custom id)

-- A call's item: whether it is custom, its id, its status, and its arguments or its input.
pub data IsCall : Bool → Text → Text → Text → Item → Type 0 where
  function_item :
      {id status call_id name args : Text}
      → IsCall false id status args (function_call id status call_id name args)
  custom_item :
      {id status call_id name input : Text}
      → IsCall true id status input (custom_call id status call_id name input)

abbrev pub at : Phase → View → View
at p v = record v { phase = p }

abbrev pub adding : Phase → View → View
adding p v = record v { phase = p; opened = suc v.opened }

-- the output index of the item that was added last
abbrev pub last : View → ℕ
last v = before v.opened

-- The events that may come, and what they change. An item is added under the next output index, and
-- the events of its parts are those of the item that is open; what is said to be done is all that
-- the deltas have said. A delta of a call names the item of a call that has been added.
pub data Step : View → Sse → View → Type 0 where
  create : {v : View} (r : Fields) → v.phase ≡ fresh → Step v (response_created r) (at announced v)
  announce :
      {v : View} (r : Fields) → v.phase ≡ announced → Step v (response_in_progress r) (at idle v)
  add_reasoning :
      {v : View} (id : Text)
      → v.phase ≡ idle
      → Step v (item_added v.opened (reasoning id [] [])) (adding (reasoning_added id) v)
  add_summary :
      {v : View} (id : Text)
      → v.phase ≡ reasoning_added id
      → Step v (summary_added id (last v)) (at (reasoning_open id) v)
  reason :
      {v : View} (id d : Text)
      → v.phase ≡ reasoning_open id
      → Step v (summary_delta id (last v) d) (record v { think = v.think ++ d })
  reasoned :
      {v : View} (id : Text)
      → v.phase ≡ reasoning_open id
      → Step v (summary_text_done id (last v) v.think) (at (reasoning_said id) v)
  close_summary :
      {v : View} (id : Text)
      → v.phase ≡ reasoning_said id
      → Step v (summary_part_done id (last v) v.think) (at (reasoning_closed id) v)
  close_reasoning :
      {v : View} (id : Text)
      → v.phase ≡ reasoning_closed id
      → Step v (item_done (last v) (reasoning id (v.think ∷ []) [])) (at idle v)
  add_message :
      {v : View} (id : Text)
      → v.phase ≡ idle
      → Step v (item_added v.opened (message id in_progress [])) (adding (message_added id) v)
  add_text :
      {v : View} (id : Text)
      → v.phase ≡ message_added id
      → Step v (text_added id (last v)) (at (message_open id) v)
  say :
      {v : View} (id d : Text)
      → v.phase ≡ message_open id
      → Step v (text_delta id (last v) d) (record v { text = v.text ++ d })
  said :
      {v : View} (id : Text)
      → v.phase ≡ message_open id
      → Step v (text_done id (last v) v.text) (at (message_said id) v)
  close_text :
      {v : View} (id : Text)
      → v.phase ≡ message_said id
      → Step v (text_part_done id (last v) v.text) (at (message_closed id) v)
  close_message :
      {v : View} (id : Text)
      → v.phase ≡ message_closed id
      → Step v (item_done (last v) (message id completed (v.text ∷ []))) (at idle v)
  add_call :
      {v : View} {custom : Bool} {id : Text} {item : Item}
      → v.phase ≡ idle
      → IsCall custom id in_progress [] item
      → Step v
          (item_added v.opened item)
          (record (adding (call_open custom id) v) { calls = id ∷ v.calls })
  call :
      {v : View} (custom : Bool) (id d : Text)
      → IsOpen v.phase
      → elem id v.calls ≡ true
      → Step v (call_delta custom id (last v) d) v
  called :
      {v : View} {custom : Bool} {id : Text} (args : Text)
      → v.phase ≡ call_open custom id
      → Step v (call_done custom id (last v) args) (at (call_said custom id args) v)
  close_call :
      {v : View} {custom : Bool} {id args : Text} {item : Item}
      → v.phase ≡ call_said custom id args
      → IsCall custom id completed args item
      → Step v (item_done (last v) item) (at idle v)
  complete : {v : View} (r : Fields) → v.phase ≡ idle → Step v (response_completed r) (at over v)
  fail : {v : View} (r : Fields) → v.phase ≡ idle → Step v (response_failed r) (at failing v)
  report :
      {v : View} (code text : Text) → v.phase ≡ failing → Step v (error_event code text) (at over v)

-- The frames from `v` behind the number `n` to `w` behind the number `m`: the events are numbered
-- without a gap, and the line that ends the stream comes behind the end.
pub data Run : ℕ → View → List Frame → ℕ → View → Type 0 where
  here : {n : ℕ} {v : View} → Run n v [] n v
  next :
      {n m : ℕ} {v u w : View} {e : Sse} {fs : List Frame}
      → Step v e u
      → Run (suc n) u fs m w
      → Run n v (framed (suc n) e ∷ fs) m w
  finish :
      {n m : ℕ} {v w : View} {fs : List Frame}
      → v.phase ≡ over
      → Run n (at finished v) fs m w
      → Run n v (done_line ∷ fs) m w

pub Run-append :
    {n m k : ℕ} {v w u : View} {fs gs : List Frame}
    → Run n v fs m w
    → Run m w gs k u
    → Run n v (fs ++ gs) k u
Run-append here r = r
Run-append (next s q) r = next s (Run-append q r)
Run-append (finish h q) r = finish h (Run-append q r)
