-- ===== src/App/Ends.antt =====
-- How an endpoint's loop over the driver's yields ends, and the row of the request log that it writes
-- then, in devin_proxy/app.py and devin_proxy/responses.py.
use devin_proxy.Prelude.{ℕ, Text, codes, Bool, true, false, Option, none, some}
use devin_proxy.Data.{ErrDict, Fields}

-- How the loop over the driver's yields ends: through, at an error dict, or by an exception.
pub data LoopEnd : Type 0 where
  through : LoopEnd
  at_error : ErrDict → LoopEnd
  crashed : Text → LoopEnd

-- A row of the request log (`_record`), as far as an endpoint decides on it.
pub record Row : Type 0 where
  pub ok : Bool
  pub status : ℕ
  pub error : Option Text
  pub usage : Option Fields
  pub account : Option ℕ

abbrev pub status_of : ErrDict → ℕ
status_of e = elim e.http_status [ none ↦ 502 | some s ↦ s ]

abbrev pub failed_row : ErrDict → Option Fields → Option ℕ → Row
failed_row e usage account = record {
  ok = false;
  status = status_of e;
  error = some e.message;
  usage = usage;
  account = account;
}

abbrev pub ok_row : Option Fields → Option ℕ → Row
ok_row usage account = record {
  ok = true;
  status = 200;
  error = none;
  usage = usage;
  account = account;
}

abbrev pub aborted_row : Option Fields → Option ℕ → Row
aborted_row usage account = record {
  ok = false;
  status = 499;
  error = some (codes "client disconnected mid-stream");
  usage = usage;
  account = account;
}
