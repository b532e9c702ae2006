-- ===== src/App/ReqLog.antt =====
-- The request log of devin_proxy/app.py: the timeline of events, the summary of what is sent to
-- the client, and the capture of the wire, each with its size cap.
pub mod Caps
use devin_proxy.Prelude.{
  ℕ, zero, suc, ◌+◌, ◌*◌, Text, codes, Bool, true, false, Option, none, some, List, [], ◌∷◌, ◌++◌,
  Dict, insert, map, length, take, drop, strip, starts_with, if◌then◌else◌, ltb, set_add, text_eq,
}
use devin_proxy.Data.{Json, num, str, bool}

abbrev pub ev_cap : ℕ
ev_cap = 12000

-- An event as a dict; what came in; the dict of an attempt, and that with what is filled in behind
-- it: the request as JSON and the frames. Of the capture, the caps count the texts in base64 and what
-- is sent to the client; the other fields are stored uncounted.
abbrev pub Entry : Type 0
Entry = Dict Text Json

pub record Inbound : Type 0 where
  pub method : Text
  pub url : Text
  pub headers : List (Text × Text)
  pub body_b64 : Text

pub record Attempt : Type 0 where
  pub attempt : ℕ
  pub account : Text
  pub server : Text
  pub model : Text
  pub sanitized_desc : Bool
  pub request_pb_b64 : Text
  pub redacted : Text

pub record Captured : Type 0 where
  pub att : Attempt
  pub request : Option Json
  pub frames : List (Text × Text)

pub record ReqLog : Type 0 where
  pub events : List Entry
  pub sse : List Text
  pub flags : List Text
  pub ev_sz : ℕ
  pub sse_sz : ℕ
  pub cap_sz : ℕ
  pub ev_full : Bool
  pub sse_full : Bool
  pub cap_full : Bool
  pub inbound : Option Inbound
  pub attempts : List Captured
  pub downstream : List Text

abbrev pub empty : ReqLog
empty = record {
  events = [];
  sse = [];
  flags = [];
  ev_sz = 0;
  sse_sz = 0;
  cap_sz = 0;
  ev_full = false;
  sse_full = false;
  cap_full = false;
  inbound = none;
  attempts = [];
  downstream = [];
}

abbrev pub ellipsis : Text
ellipsis = 8230 ∷ []

-- The last line of a full summary.
abbrev pub full_note : Text
full_note = ellipsis ++ codes " output log size cap reached " ++ ellipsis

-- The caps, and `json.dumps` of a value and of an event
pub record Limits : Type 0 where
  pub log_cap : ℕ
  pub cap_max : ℕ
  pub dumps : Json → Text
  pub dumps_entry : Entry → Text

abbrev pub put_all : Entry → Entry → Entry
put_all e [] = e
put_all e ((k, v) ∷ kvs) = put_all (insert k v e) kvs

module _ (limits : Limits) where
  -- Long values are cut, and the event says so.
  unfoldable pub cut_values : Entry → Entry
  cut_values e = insert (codes "data_truncated") (bool true) (
      map
        (λ (kv : Text × Json).
          if ltb 4000 (length (limits.dumps kv.1))
          then (kv.0, str (take 4000 (limits.dumps kv.1) ++ ellipsis))
          else kv)
        e)

  unfoldable pub entry_of : ReqLog → ℕ → Text → Entry → Entry
  unfolding cut_values
  entry_of l ms kind fields =
      let e =
        put_all
          ((codes "i", num (length l.events + 1))
            ∷ (codes "t", str kind)
            ∷ (codes "ms", num ms)
            ∷ [])
          fields in
      if ltb ev_cap (length (limits.dumps_entry e)) then cut_values e else e

  unfoldable pub ev : ReqLog → ℕ → Text → Entry → ReqLog
  unfolding entry_of
  ev l ms kind fields =
      let e = entry_of l ms kind fields in
      let n = length (limits.dumps_entry e) in
      if l.ev_full
      then l
      else if ltb limits.log_cap (l.ev_sz + n)
      then record l {
        events =
            l.events
            ++ ((codes "i", num (length l.events + 1))
                ∷ (codes "t", str (codes "log_cap"))
                ∷ (codes "ms", num ms)
                ∷ (codes "note", str (codes "event log size cap reached"))
                ∷ [])
              ∷ [];
        ev_full = true;
      }
      else record l { events = l.events ++ e ∷ []; ev_sz = l.ev_sz + n }

  -- `_cap_room`
  unfoldable pub cap_room : ReqLog → ℕ → ReqLog × Bool
  cap_room l n =
      if l.cap_full
      then (l, false)
      else if ltb limits.cap_max (l.cap_sz + n)
      then (record l { flags = set_add (codes "capture_capped") l.flags; cap_full = true }, false)
      else (record l { cap_sz = l.cap_sz + n }, true)

  unfoldable pub cap_inbound : ReqLog → Inbound → ReqLog
  unfolding cap_room
  cap_inbound l i =
      let r = cap_room l (length i.body_b64) in if r.1 then record r.0 { inbound = some i } else r.0

  -- The attempt is found again by its place in the list.
  unfoldable pub cap_attempt : ReqLog → Attempt → ReqLog × Option ℕ
  unfolding cap_room
  cap_attempt l att =
      let r = cap_room l (length att.request_pb_b64) in
      if r.1
      then (
        record r.0 {
          attempts = r.0.attempts ++ record { att = att; request = none; frames = [] } ∷ [];
        },
        some (length r.0.attempts),
      )
      else (r.0, none)

  unfoldable pub set_request : ℕ → Json → List Captured → List Captured
  set_request i d [] = []
  set_request zero d (a ∷ as') = record a { request = some d } ∷ as'
  set_request (suc i) d (a ∷ as') = a ∷ set_request i d as'

  -- `cap_att["request"] = MessageToDict(…)`, which the driver stores past the caps
  unfoldable pub fill_request : ReqLog → ℕ → Json → ReqLog
  unfolding set_request
  fill_request l i d = record l { attempts = set_request i d l.attempts }

  unfoldable pub add_frame : ℕ → Text × Text → List Captured → List Captured
  add_frame i f [] = []
  add_frame zero f (a ∷ as') = record a { frames = a.frames ++ f ∷ [] } ∷ as'
  add_frame (suc i) f (a ∷ as') = a ∷ add_frame i f as'

  unfoldable pub cap_frame : ReqLog → ℕ → Text → Text → ReqLog
  unfolding cap_room add_frame
  cap_frame l i kind b64 =
      let r = cap_room l (length b64) in
      if r.1 then record r.0 { attempts = add_frame i (kind, b64) r.0.attempts } else r.0

  -- the payload without "data:", cut to the cap of an event
  unfoldable pub summary_of : Text → Text
  summary_of payload =
      let s = strip payload in
      let t = if starts_with s (codes "data:") then strip (drop 5 s) else s in
      if ltb ev_cap (length t) then take ev_cap t ++ ellipsis else t

  unfoldable pub capture_out : ReqLog → Text → ReqLog
  unfolding cap_room
  capture_out l payload =
      let r = cap_room l (length payload) in
      if r.1 then record r.0 { downstream = r.0.downstream ++ payload ∷ [] } else r.0

  unfoldable pub out : ReqLog → Text → ReqLog
  unfolding summary_of capture_out
  out l payload =
      let l' = capture_out l payload in
      let s = summary_of payload in
      if l'.sse_full
      then l'
      else if ltb limits.log_cap (l'.sse_sz + length s)
      then record l' { sse = l'.sse ++ full_note ∷ []; sse_full = true }
      else record l' { sse = l'.sse ++ s ∷ []; sse_sz = l'.sse_sz + length s }

  -- `flag`
  unfoldable pub flag : ReqLog → Text → ReqLog
  flag l f = record l { flags = set_add f l.flags }
