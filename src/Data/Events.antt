-- ===== src/Data/Events.antt =====
-- Exceptions as values, the error dicts that the stages hand on, and the upstream's messages.
use devin_proxy.Prelude.{ℕ, Text, codes, Bool, false, Option, none, List}

-- What a call gives: a value, or an exception with its text.
pub data Try {ℓ} (A : Type ℓ) : Type ℓ where
  done : A → Try A
  raised : Text → Try A

pub data ErrKind : Type 0 where
  http_error upstream_error truncated protocol_error : ErrKind
  exception build_error no_account retry_exhausted retry_timeout : ErrKind

abbrev pub kind_text : ErrKind → Text
kind_text http_error = codes "http_error"
kind_text upstream_error = codes "upstream_error"
kind_text truncated = codes "truncated"
kind_text protocol_error = codes "protocol_error"
kind_text exception = codes "exception"
kind_text build_error = codes "build_error"
kind_text no_account = codes "no_account"
kind_text retry_exhausted = codes "retry_exhausted"
kind_text retry_timeout = codes "retry_timeout"

-- An error dict. A key that a dict lacks reads as `none` or `false` here, as `.get` does.
pub record ErrDict : Type 0 where
  pub kind : ErrKind
  pub message : Text
  pub http_status : Option ℕ
  pub soft : Bool
  pub transient : Bool
  pub code : Option Text
  pub retry_after : Option ℕ

-- A dict with a kind and a message only.
abbrev pub plain_error : ErrKind → Text → ErrDict
plain_error k m = record {
  kind = k;
  message = m;
  http_status = none;
  soft = false;
  transient = false;
  code = none;
  retry_after = none;
}

-- The fields of `ChatToolCall` in devin_proxy/proto.py.
pub record ChatToolCall : Type 0 where
  pub id : Text
  pub name : Text
  pub arguments : Text

-- A `UsageMetric`, with its value rounded, and its text.
pub record Metric : Type 0 where
  pub metric : Text
  pub value : ℕ
  pub text : Text

-- The fields of `RespInfo` that are read; a header is a name and a value.
pub record RespInfo : Type 0 where
  pub msg_id : Text
  pub model_uid : Text
  pub headers : List (Text × Text)

-- The fields of `GetChatMessageResponse` that the driver and the collectors read.
pub record ChatResponse : Type 0 where
  pub message_id : Text
  pub delta_text : Text
  pub delta_thinking : Text
  pub delta_tool_calls : List ChatToolCall
  pub stop_reason : ℕ
  pub usage : List (List Metric)
  pub info : Option RespInfo
  pub elapsed : ℕ

-- What `stream_chat` yields: a message, or an error dict.
pub data Event : Type 0 where
  msg : ChatResponse → Event
  failed : ErrDict → Event
