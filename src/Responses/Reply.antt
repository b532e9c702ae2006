-- ===== src/Responses/Reply.antt =====
-- How a request of the Responses API is answered: `_sse` as a whole, `_collect` and `_persist` of
-- devin_proxy/responses.py. The driver's yields and its outcome are what the answer is made of.
pub mod Accepted
pub mod Agreement
pub mod Answers
use devin_proxy.Prelude.{
  ℕ, suc, Text, codes, Bool, true, false, Option, none, some, List, [], ◌∷◌, ◌++◌, map, is_empty,
  if◌then◌else◌, ltb,
}
use devin_proxy.Data.{
  ChatResponse, ErrDict, kind_text, msg, failed, Json, Fields, null, str, obj, end, field, get, Try,
  done, raised,
}
use devin_proxy.Upstream.Usage.{put, update, add_usage}
use devin_proxy.App.ToolAgg.{ToolAgg, feed, empty}
use devin_proxy.App.ToolAgg.Deltas.{feed_all}
use devin_proxy.App.Ends.{
  LoopEnd, through, at_error, crashed, Row, status_of, failed_row, ok_row, aborted_row,
}
use devin_proxy.App.Driver.Attempt.{Yield, from, from_none}
use devin_proxy.App.Driver.Loop.{Outcome, returned, disconnected, out_of_fuel}
use devin_proxy.Responses.Output.{
  Item, reasoning, message, function_call, custom_call, Ids, completed, item_fields, dicts_json,
  output_items, response_object, custom_tool_names, is_false,
}
use devin_proxy.Responses.Stream.{
  Sse, Frame, done_line, response_created, response_in_progress, response_completed,
  response_failed, error_event, Setup, Emitter, emit, start, in_progress, close_open, send_yields,
  rs_id, msg_id,
}

-- A request behind its mapping: the body, the resolved model, the id of the response, the session's
-- key, the items that were given, and the time, which stands for the times of all its response objects.
-- `dumps` is `json.dumps`.
pub record Job : Type 0 where
  pub body : Fields
  pub model : Text
  pub rid : Text
  pub session : Option Text
  pub items_in : List Fields
  pub created_at : ℕ
  pub loads : Text → Option Json
  pub dumps : Json → Text
  pub lower : Text → Text
  pub ids : Ids

-- A row of the stored responses.
pub record Saved : Type 0 where
  pub rid : Text
  pub model : Text
  pub status : Text
  pub account : Option ℕ
  pub session : Option Text
  pub items_json : Text
  pub response_json : Text

abbrev pub code_json : Text → Text → Json
code_json code text = obj (field (codes "code") (str code) (field (codes "message") (str text) end))

-- The ids that have been streamed replace those that `output_items` draws, and the calls' items those
-- that have been closed, in their order.
unfoldable pub keep_ids : Text → Text → List Item → List Item → List Fields
unfolding put update item_fields
keep_ids rs said closed [] = []
keep_ids rs said closed (reasoning id summary content ∷ is) =
    put (codes "id") (str rs) (item_fields (reasoning id summary content))
    ∷ keep_ids rs said closed is
keep_ids rs said closed (message id status content ∷ is) =
    put (codes "id") (str said) (item_fields (message id status content))
    ∷ keep_ids rs said closed is
keep_ids rs said [] (i ∷ is) = item_fields i ∷ keep_ids rs said [] is
keep_ids rs said (c ∷ closed) (i ∷ is) =
    update (item_fields i) (item_fields c) ∷ keep_ids rs said closed is

-- What a streamed request leaves: the frames, the rows that are written, and the response that is
-- kept.
pub record Streamed : Type 0 where
  pub frames : List Frame
  pub rows : List Row
  pub saved : List Saved

abbrev pub sent_only : Emitter → List Row → Streamed
sent_only s rows = record { frames = s.sent; rows = rows; saved = [] }

-- What a collected request leaves: the status and the answer, or an exception.
pub record Answered : Type 0 where
  pub answer : Try (ℕ × Fields)
  pub rows : List Row
  pub saved : List Saved

-- The variables of `_collect`.
pub record Collected : Type 0 where
  pub texts : Text
  pub think : Text
  pub agg : ToolAgg
  pub usage : Option Fields
  pub account : Option ℕ

abbrev pub nothing_yet : Collected
nothing_yet = record { texts = []; think = []; agg = empty; usage = none; account = none }

-- `_err`
abbrev pub error_body : Text → Text → Fields
error_body text kind =
    field (codes "error")
      (obj (
        field (codes "message") (str text)
          (field (codes "type") (str kind) (field (codes "code") null end))))
      end

module _ (job : Job) where
  abbrev pub setup : Setup
  setup = record {
    loads = job.loads;
    lower = job.lower;
    ids = job.ids;
    custom = custom_tool_names job.body;
  }

  -- The response with its status, its error, its output and its usage.
  abbrev pub response : Text → Json → List Fields → Option Fields → Fields
  response status error output usage = response_object job.body (record {
    id = job.rid;
    created_at = job.created_at;
    status = status;
    error = error;
    model = job.model;
    output = output;
    usage = usage;
  })

  abbrev pub saved_of : Option ℕ → List Fields → Fields → Saved
  saved_of account items_out resp = record {
    rid = job.rid;
    model = job.model;
    status = completed;
    account = account;
    session = job.session;
    items_json = job.dumps (dicts_json (job.items_in ++ items_out));
    response_json = job.dumps (obj resp);
  }

  -- `_persist`
  unfoldable pub persist : Option ℕ → List Fields → Fields → List Saved
  unfolding get
  persist account items_out resp =
      if is_false (get (codes "store") job.body) then [] else saved_of account items_out resp ∷ []

  -- The end of a stream that an error has ended, and of one that is complete.
  unfoldable pub send_failure : ErrDict → Emitter → Streamed
  unfolding response_object
  send_failure e s =
      let kind = kind_text e.kind in
      let s' =
        emit
          (emit s
            (response_failed (response (codes "failed") (code_json kind e.message) [] s.usage)))
          (error_event kind e.message) in
      record {
        frames = s'.sent ++ done_line ∷ [];
        rows = failed_row e s.usage s.account ∷ [];
        saved = [];
      }

  unfoldable pub send_response : Emitter → Streamed
  unfolding response_object output_items keep_ids persist
  send_response s =
      let items = keep_ids (rs_id setup) (msg_id setup) s.fc_items (
        output_items job.loads job.ids (custom_tool_names job.body) (suc s.drawn) s.text s.think
          s.agg) in
      let resp = response completed null items s.usage in
      record {
        frames = (emit s (response_completed resp)).sent ++ done_line ∷ [];
        rows = ok_row s.usage s.account ∷ [];
        saved = persist s.account items resp;
      }

  unfoldable pub end_stream : Outcome → Emitter × LoopEnd → Streamed
  unfolding send_failure send_response
  end_stream o (s, crashed e) = sent_only s []
  end_stream o (s, at_error e) = send_failure e (close_open setup s)
  end_stream disconnected (s, through) = sent_only s (aborted_row s.usage s.account ∷ [])
  end_stream returned (s, through) = send_response (close_open setup s)
  end_stream out_of_fuel (s, through) = send_response (close_open setup s)

  -- `_sse`
  abbrev pub opening : Emitter
  opening =
      let base = response in_progress null [] none in
      emit (emit start (response_created base)) (response_in_progress base)

  unfoldable pub sse : List Yield → Outcome → Streamed
  unfolding response_object send_yields end_stream
  sse ys o = end_stream o (send_yields setup ys opening)

  -- What one message adds to a collected response.
  abbrev pub collect_message : ChatResponse → Collected → Collected
  collect_message m c = record c {
    texts = c.texts ++ m.delta_text;
    think = c.think ++ m.delta_thinking;
    agg = feed_all c.agg m.delta_tool_calls;
  }

  abbrev pub go_on :
      (Collected → Collected × LoopEnd) → Collected → Try (Option Fields) → Collected × LoopEnd
  go_on rest c (raised e) = (c, crashed e)
  go_on rest c (done u) = rest (record c { usage = u })

  unfoldable pub collect_yields : List Yield → Collected → Collected × LoopEnd
  unfolding feed add_usage
  collect_yields [] c = (c, through)
  collect_yields (from r (failed e) ∷ ys) c = (record c { account = some r }, at_error e)
  collect_yields (from_none (failed e) ∷ ys) c = (c, at_error e)
  collect_yields (from r (msg m) ∷ ys) c =
      let c' = collect_message m (record c { account = some r }) in
      go_on (collect_yields ys) c' (add_usage job.lower c'.usage m)
  collect_yields (from_none (msg m) ∷ ys) c =
      let c' = collect_message m c in go_on (collect_yields ys) c' (add_usage job.lower c'.usage m)

  -- `_collect`
  unfoldable pub answer_of : Outcome → Collected × LoopEnd → Answered
  unfolding response_object output_items persist
  answer_of o (c, crashed e) = record { answer = raised e; rows = []; saved = [] }
  answer_of o (c, at_error e) = record {
    answer = done (
      if ltb (status_of e) 600 then status_of e else 502,
      error_body e.message (codes "server_error"),
    );
    rows = failed_row e c.usage c.account ∷ [];
    saved = [];
  }
  answer_of disconnected (c, through) = record {
    answer = raised (codes "ClientDisconnected");
    rows = [];
    saved = [];
  }
  answer_of _ (c, through) =
      let items =
        map item_fields
          (output_items job.loads job.ids (custom_tool_names job.body) 0 c.texts c.think c.agg) in
      let resp = response completed null items c.usage in
      record {
        answer = done (200, resp);
        rows = ok_row c.usage c.account ∷ [];
        saved = persist c.account items resp;
      }

  unfoldable pub collect : List Yield → Outcome → Answered
  unfolding collect_yields answer_of
  collect ys o = answer_of o (collect_yields ys nothing_yet)
