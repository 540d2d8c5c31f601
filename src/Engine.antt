-- ===== src/Engine.antt =====
-- src/engine/provider.rs: what the runner and an engine exchange. The measured times of a
-- completion are left out: the runner does not read them.
pub mod Stream
pub mod Response
use anser.Prelude.{ℕ, String, ◌<>◌, Option, List}
use anser.Prelude.Text.{Text, decimal}

pub record ToolCall : Type 0 where
  pub index : ℕ
  pub id : String
  pub name : String
  pub arguments : String

pub record Message : Type 0 where
  pub role : String
  pub content : Text
  pub tool_calls : List ToolCall
  pub tool_call_id : Option String

-- The parameters are the text of a JSON schema.
pub record ToolSchema : Type 0 where
  pub name : String
  pub description : String
  pub parameters : String

pub record Completion : Type 0 where
  pub content : Text
  pub tool_calls : List ToolCall
  pub finish_reason : Option String

pub data EngineError : Type 0 where
  missing_config : (field : String) → EngineError
  http : (status : ℕ) (body : String) → EngineError
  connect : (url source : String) → EngineError
  sse malformed : (detail : String) → EngineError
  trace_exhausted : EngineError

-- The `Display` that `thiserror` derives.
unfoldable pub display : EngineError → String
display (missing_config field) = "missing " <> field <> " in config"
display (http status body) = "upstream HTTP " <> decimal status <> ": " <> body
display (connect url source) = "connection to " <> url <> " failed: " <> source
display (sse detail) = "invalid SSE frame: " <> detail
display (malformed detail) = "malformed upstream response: " <> detail
display trace_exhausted = "trace exhausted: no more recorded responses"
