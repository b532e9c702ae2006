-- ===== src/App/ReqLog/Caps.antt =====
-- The size caps of the request log, over any sequence of records.
use devin_proxy.Prelude.{
  ℕ, ◌+◌, ◌≤◌, Text, Bool, true, false, ◌≡◌, Option, none, some, List, [], ◌∷◌, ◌++◌, length,
  if◌then◌else◌,
}
use devin_proxy.Data.{Json}
use devin_proxy.App.ReqLog.{
  Entry, Inbound, Attempt, Captured, ReqLog, Limits, full_note, ev, cap_inbound, cap_attempt,
  fill_request, cap_frame, out, flag,
}

-- The characters in a list of texts, and of what the capture counts: the frames, the requests in
-- base64, the body in base64 and what is sent to the client.
abbrev pub total : List Text → ℕ
total [] = 0
total (t ∷ ts) = length t + total ts

abbrev pub total_frames : List (Text × Text) → ℕ
total_frames [] = 0
total_frames (f ∷ fs) = length f.1 + total_frames fs

abbrev pub total_attempts : List Captured → ℕ
total_attempts [] = 0
total_attempts (a ∷ as') = length a.att.request_pb_b64 + total_frames a.frames + total_attempts as'

abbrev pub total_inbound : Option Inbound → ℕ
total_inbound none = 0
total_inbound (some i) = length i.body_b64

abbrev pub captured : ReqLog → ℕ
captured l = total_inbound l.inbound + total_attempts l.attempts + total l.downstream

module _ (limits : Limits) where
  -- The characters of the events, as JSON.
  abbrev pub total_entries : List Entry → ℕ
  total_entries [] = 0
  total_entries (e ∷ es) = length (limits.dumps_entry e) + total_entries es

  -- The events come to the counted size; a full timeline ends by one more event, the note of it.
  abbrev pub IsLogged : Bool → List Entry → ℕ → Type 0
  IsLogged false es sz = total_entries es ≡ sz
  IsLogged true es sz =
      (front : List Entry) × (note : Entry) × (es ≡ front ++ note ∷ []) × (total_entries front ≡ sz)

  -- What is stored fits the counters, and the counters fit the caps.
  abbrev pub IsBounded : ReqLog → Type 0
  IsBounded l =
      (captured l ≤ l.cap_sz)
      × (l.cap_sz ≤ limits.cap_max)
      × (total l.sse ≡ l.sse_sz + (if l.sse_full then length full_note else 0))
      × (l.sse_sz ≤ limits.log_cap)
      × (l.ev_sz ≤ limits.log_cap)
      × IsLogged l.ev_full l.events l.ev_sz

  -- One call of the log's methods.
  pub data Call : Type 0 where
    evs : ℕ → Text → Entry → Call
    inbounds : Inbound → Call
    attempts : Attempt → Call
    fills : ℕ → Json → Call
    frames : ℕ → Text → Text → Call
    outs : Text → Call
    flagged : Text → Call

  abbrev pub step : ReqLog → Call → ReqLog
  step l (evs ms kind fields) = ev limits l ms kind fields
  step l (inbounds i) = cap_inbound limits l i
  step l (attempts att) = (cap_attempt limits l att).0
  step l (fills i d) = fill_request limits l i d
  step l (frames i kind b64) = cap_frame limits l i kind b64
  step l (outs payload) = out limits l payload
  step l (flagged f) = flag limits l f

  abbrev pub run : ReqLog → List Call → ReqLog
  run l [] = l
  run l (c ∷ cs) = run (step l c) cs
