-- ===== src/Responses/Reply/Answers.antt =====
-- The streamed and the collected answer to one request of the Responses API, in devin_proxy/responses.py.
use devin_proxy.Prelude.{
  ℕ, suc, Text, codes, ◌≡◌, ◌≢◌, refl, ap, sym, ◌∙◌, subst, List, [], ◌∷◌, ◌++◌, map, Option, none,
  some, text_beq,
}
use devin_proxy.Data.{ErrDict, kind_text, Fields, null, Try, done, raised, msg, failed}
use devin_proxy.Upstream.Usage.{put}
use devin_proxy.App.ToolAgg.{empty}
use devin_proxy.App.Ends.{LoopEnd, at_error, crashed, through}
use devin_proxy.App.Driver.Attempt.{Yield, from, from_none}
use devin_proxy.App.Driver.Loop.{Outcome, returned, disconnected, out_of_fuel}
use devin_proxy.Responses.Output.{
  Item, output_items, call_items_of, item_fields, completed, custom_tool_names,
}
use devin_proxy.Responses.Stream.{
  Sse, response_completed, response_failed, error_event, Frame, framed, done_line, Emitter, emit,
  close_open, send_yields, rs_id, msg_id,
}
use devin_proxy.Responses.Reply.{
  Job, Streamed, Answered, Collected, setup, opening, nothing_yet, sse, collect, end_stream,
  answer_of, send_failure, send_response, collect_yields, go_on, keep_ids, error_body, response,
  code_json, persist,
}
use devin_proxy.Responses.Reply.Agreement.{gist, gist-close, gist-send_yields, rows-end_stream}

-- No message has a delta of a call.
abbrev pub NoCalls : List Yield → Type 0
NoCalls [] = Unit
NoCalls (from r (msg m) ∷ ys) = (m.delta_tool_calls ≡ []) × NoCalls ys
NoCalls (from_none (msg m) ∷ ys) = (m.delta_tool_calls ≡ []) × NoCalls ys
NoCalls (_ ∷ ys) = NoCalls ys

-- The last event of a stream (`x` if there is none).
abbrev pub last_event : Option Sse → List Frame → Option Sse
last_event x [] = x
last_event x (framed n e ∷ fs) = last_event (some e) fs
last_event x (done_line ∷ fs) = last_event x fs

-- The last event of the stream tells the collected answer: a complete response, the same field by field;
-- or an error, whose text is that of the collected error. Nothing is asked where the request raises an
-- exception.
abbrev pub Says : Try (ℕ × Fields) → Option Sse → Type 0
Says (done (n, fields)) (some (response_completed resp)) = (n ≡ 200) × (resp ≡ fields)
Says (done (n, fields)) (some (error_event code text)) =
    fields ≡ error_body text (codes "server_error")
Says (done (n, fields)) _ = ⊥
Says (raised e) _ = Unit

pub record Agrees (s : Streamed) (a : Answered) : Type 0 where
  pub rows : s.rows ≡ a.rows
  pub saved : s.saved ≡ a.saved
  pub told : Says a.answer (last_event none s.frames)

last_event-append :
    (x : Option Sse) (fs : List Frame) (n : ℕ) (e : Sse)
    → last_event x ((fs ++ framed n e ∷ []) ++ done_line ∷ []) ≡ some e
last_event-append x [] n e = refl
last_event-append x (framed m d ∷ fs) n e = last_event-append (some d) fs n e
last_event-append x (done_line ∷ fs) n e = last_event-append x fs n e

module _ (job : Job) where
  agg-go_on :
      (rest : Collected → Collected × LoopEnd) (c : Collected) (u : Try (Option Fields))
      → ((d : Collected) → (rest d).0.agg ≡ d.agg)
      → (go_on job rest c u).0.agg ≡ c.agg
  agg-go_on rest c (raised e) h = refl
  agg-go_on rest c (done u) h = h (record c { usage = u })

  agg-collect_yields :
      (ys : List Yield) (c : Collected) → NoCalls ys → (collect_yields job ys c).0.agg ≡ c.agg
  unfolding collect_yields
  agg-collect_yields [] c h = refl
  agg-collect_yields (from r (failed e) ∷ ys) c h = refl
  agg-collect_yields (from_none (failed e) ∷ ys) c h = refl
  agg-collect_yields (from r (msg m) ∷ ys) c h =
      rw h.0 (agg-go_on (collect_yields job ys) _ _ (λ d. agg-collect_yields ys d h.1))
  agg-collect_yields (from_none (msg m) ∷ ys) c h =
      rw h.0 (agg-go_on (collect_yields job ys) _ _ (λ d. agg-collect_yields ys d h.1))

  -- The items of an answer without calls, with the ids of the stream.
  keep_ids-output_items :
      (closed : List Item) (n : ℕ) (text think : Text)
      → keep_ids
          (rs_id (setup job))
          (msg_id (setup job))
          closed
          (output_items job.loads job.ids (custom_tool_names job.body) n text think empty)
        ≡ map item_fields
            (output_items job.loads job.ids (custom_tool_names job.body) 0 text think empty)
  unfolding keep_ids output_items call_items_of item_fields put text_beq
  keep_ids-output_items closed n [] [] = refl
  keep_ids-output_items closed n [] (c ∷ think) = refl
  keep_ids-output_items closed n (c ∷ text) [] = refl
  keep_ids-output_items closed n (c ∷ text) (d ∷ think) = refl

  items_of : Emitter → List Fields
  items_of s = keep_ids (rs_id (setup job)) (msg_id (setup job)) s.fc_items (
      output_items job.loads job.ids (custom_tool_names job.body) (suc s.drawn) s.text s.think
        s.agg)

  items-gist :
      (s : Emitter)
      → s.agg ≡ empty
      → items_of s
        ≡ map item_fields
            (output_items job.loads job.ids (custom_tool_names job.body) 0 s.text s.think s.agg)
  unfolding items_of
  items-gist s h = rw h (keep_ids-output_items s.fc_items (suc s.drawn) s.text s.think)

  send_response-Agrees :
      (o : Outcome) (s : Emitter)
      → o ≢ disconnected
      → s.agg ≡ empty
      → ((send_response job s).saved ≡ (answer_of job o (gist s, through)).saved)
        × Says
            (answer_of job o (gist s, through)).answer
            (last_event none (send_response job s).frames)
  unfolding send_response answer_of items_of
  send_response-Agrees disconnected s n h = absurd (n refl)
  send_response-Agrees returned s n h = (
    ap (λ items. persist job s.account items (response job completed null items s.usage))
        (items-gist s h),
    subst (Says (answer_of job returned (gist s, through)).answer)
        (sym (last_event-append none s.sent _ _))
        (refl, ap (λ items. response job completed null items s.usage) (items-gist s h)),
  )
  send_response-Agrees out_of_fuel s n h = (
    ap (λ items. persist job s.account items (response job completed null items s.usage))
        (items-gist s h),
    subst (Says (answer_of job out_of_fuel (gist s, through)).answer)
        (sym (last_event-append none s.sent _ _))
        (refl, ap (λ items. response job completed null items s.usage) (items-gist s h)),
  )

  complete :
      (o : Outcome) (s : Emitter)
      → o ≢ disconnected
      → s.agg ≡ empty
      → ((send_response job (close_open (setup job) s)).saved
          ≡ (answer_of job o (gist s, through)).saved)
        × Says
            (answer_of job o (gist s, through)).answer
            (last_event none (send_response job (close_open (setup job) s)).frames)
  complete o s n h =
      let s' = close_open (setup job) s in
      subst
        (λ c.
          ((send_response job s').saved ≡ (answer_of job o (c, through)).saved)
          × Says (answer_of job o (c, through)).answer
              (last_event none (send_response job s').frames))
        (gist-close job s)
        (send_response-Agrees o s' n (ap (λ (c : Collected). c.agg) (gist-close job s) ∙ h))

  send_failure-last :
      (e : ErrDict) (s : Emitter)
      → last_event none (send_failure job e s).frames
        ≡ some (error_event (kind_text e.kind) e.message)
  unfolding send_failure
  send_failure-last e s =
      let t = emit s (
        response_failed
          (response job (codes "failed") (code_json (kind_text e.kind) e.message) [] s.usage)) in
      last_event-append none t.sent (suc t.seq) (error_event (kind_text e.kind) e.message)

  failure-Says :
      (e : ErrDict) (s : Emitter) (n : ℕ)
      → Says
          (done (n, error_body e.message (codes "server_error")))
          (last_event none (send_failure job e s).frames)
  failure-Says e s n =
      subst (Says (done (n, error_body e.message (codes "server_error"))))
        (sym (send_failure-last e s)) refl

  end_stream-Agrees :
      (o : Outcome) (s : Emitter) (e : LoopEnd)
      → o ≢ disconnected
      → s.agg ≡ empty
      → Agrees (end_stream job o (s, e)) (answer_of job o (gist s, e))
  unfolding end_stream answer_of send_failure
  end_stream-Agrees disconnected s e n h = absurd (n refl)
  end_stream-Agrees returned s (crashed e) n h = record { rows = refl; saved = refl; told = tt }
  end_stream-Agrees out_of_fuel s (crashed e) n h = record { rows = refl; saved = refl; told = tt }
  end_stream-Agrees returned s (at_error e) n h = record {
    rows = rows-end_stream job returned s (at_error e) n;
    saved = refl;
    told = failure-Says e (close_open (setup job) s) _;
  }
  end_stream-Agrees out_of_fuel s (at_error e) n h = record {
    rows = rows-end_stream job out_of_fuel s (at_error e) n;
    saved = refl;
    told = failure-Says e (close_open (setup job) s) _;
  }
  end_stream-Agrees returned s through n h =
      let c = complete returned s n h in
      record { rows = rows-end_stream job returned s through n; saved = c.0; told = c.1 }
  end_stream-Agrees out_of_fuel s through n h =
      let c = complete out_of_fuel s n h in
      record { rows = rows-end_stream job out_of_fuel s through n; saved = c.0; told = c.1 }

  -- For the same yields of a driver that is not cut off by the client, none of which has a delta of a call:
  -- the streamed and the collected request write the same rows and store the same response; the response in
  -- the stream's last event is the collected answer, field by field, and an error that ends the stream has
  -- the text of the collected error. Where the request raises an exception, only the rows and the store
  -- are compared. (With calls the two can differ in the items of the calls.)
  pub sse-collect :
      (ys : List Yield) (o : Outcome)
      → o ≢ disconnected
      → NoCalls ys
      → Agrees (sse job ys o) (collect job ys o)
  unfolding sse collect
  sse-collect ys o n h =
      let r = send_yields (setup job) ys (opening job) in
      let g = gist-send_yields job ys (opening job) in
      subst (λ c. Agrees (end_stream job o r) (answer_of job o c)) g
        (end_stream-Agrees o r.0 r.1 n
          (ap (λ (c : Collected × LoopEnd). c.0.agg) g ∙ agg-collect_yields ys nothing_yet h))
