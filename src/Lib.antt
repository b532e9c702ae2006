-- ===== src/Lib.antt =====
-- devin-proxy: an OpenAI-compatible proxy that sends chat requests to the Devin chat backend
-- over a pool of accounts. A request names a model, which the catalog resolves; its messages are
-- mapped to prompts; the driver picks an account from the pool, sends the request, reads the
-- frames of the answer, and fails over to another account; the console watches and configures it.
--
-- Files and code (paths from the repository's root):
--   Prelude, Data: texts, dicts, JSON values, error dicts and messages that all parts share.
--   Upstream/Errors, Frames, Chat: devin_proxy/upstream.py, the trailer's details and scopes,
--     the Connect envelope and `stream_chat`. A reader holds `pending`, `ended` and `n_frames`;
--     what it yields and captures is a list. Chunks, Ending and Wire have the theorems.
--   Accounts/Account, Failure: devin_proxy/accounts.py, `Account`, `is_hard_failure`, and
--     Quota, `_quota_from_plan_status`.
--   Accounts/Pool/State, Schedule: `Pool` of devin_proxy/accounts.py with the tables of
--     devin_proxy/store.py that it writes. The pool holds references to account objects, so
--     that a request may hold an object which a reload has replaced. Order, Choice, Slots,
--     Cooldown and Reload have the theorems.
--   Models: devin_proxy/models.py. Names, Settings, Catalog, Route and Sync are the code;
--     Efforts, Defaults and Served have the theorems.
--   App/Ends, Completion, Chat: devin_proxy/app.py, the rows that an endpoint writes,
--     `_collect` and `_sse_stream` of the chat endpoint; both are fed with what the driver
--     yields. Upstream/Usage has `extract_usage` and `upstream_info`, Chat/Pieces, Places,
--     Calls and Agreement the theorem.
--   Responses: devin_proxy/responses.py. Input and Output map a request and its answer; Stream
--     is the emitter of `_sse`, its variables a record, and Reply the whole of `_sse` and
--     `_collect`; Chain has the stored responses of devin_proxy/store.py and `to_chat_body`.
--     Stream/Protocol is the protocol of the event stream as a step relation. WebSocket is
--     `_ws_stream`, with a schedule of wake-ups, and WebSocket/Items its own helpers for the
--     items, and Stored the routes that read stored responses.
--   App/Chat/Handler, Responses/Handler, Responses/WebSocket/Handler: the routes of
--     devin_proxy/app.py with `handle` and `handle_ws` of devin_proxy/responses.py. A streamed
--     answer is a generator, which the server begins or not; Handler/Guard has the theorem.
--   App/Request: devin_proxy/app.py, `map_tools` and the limit of the answer.
--   App/ToolAgg, Messages, Keys, Slots, Inflight, ReqLog, Driver: devin_proxy/app.py,
--     `ToolAgg`, `map_messages`, `check_key`, `acquire_key_slot` and `session_key_for`,
--     `InflightTracker`, `ReqLog`, and `_iter_chat`. Driver/Attempt is one attempt with its
--     passes over a stream, Driver/Loop the loop with its variables as a record; Passes, Turns,
--     Replies, Ends and Rejected have the theorems.
--   Admin: devin_proxy/admin_ctx.py, the login limiter, the session cookie and the ticket.
--   Tests: inputs on which the theorems are applied, and runs of the definitions.
--
-- Modelling choices. Time is counted in ticks, a thousand to the second; where a clock is read,
-- the time read is an argument. A text is a list of code points. A session key that is missing
-- is the empty text, which the code treats alike. Writes to the store succeed. The driver's
-- environment (the streams, the built requests, the clocks, the cancellation) is a record of
-- functions of the attempt's number; the request log, which the driver only feeds, and a
-- consumer that closes the generator early are left out. The driver tells the in-flight tracker
-- of each event: what that may raise is part of the driver, and the tracker's own entries are
-- App/Inflight. The loop of the driver runs on fuel for seven turns: four attempts, two more
-- for waits that the upstream asks for, and the test that ends the loop. The reader's inner
-- loop runs on the number of bytes at hand, of which each frame takes five or more. Parameters
-- are gzip, protobuf, JSON's text, SHA-256, HMAC, `str.lower`, `int` and `float`.
--
-- The items and fields that hold texts are read as texts. What `_iid` draws is a function of
-- the prefix and the number of the draw.
--
-- Not modelled: the other routes of the web framework, what is only logged, the SQL of the
-- store, OAuth and quota requests, the admin routes, the web console, and the descriptors of
-- the protobuf messages; they are glue around these parts, or input and output.
pub mod Prelude
pub mod Data
pub mod Upstream
pub mod Accounts
pub mod Models
pub mod App
pub mod Responses
pub mod Admin
mod Tests
