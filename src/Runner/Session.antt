-- ===== src/Runner/Session.antt =====
-- src/runner/mod.rs: the multi-turn agent loop. The engine, the tools, the files and the hash of
-- the standard library act on a world `W` and are fields of `Runner`.
use anser.Prelude.{
  ℕ, String, ◌<>◌, Bool, true, false, ◌&&◌, Option, none, some, List, [], ◌∷◌, ◌++◌, ◌==◌, nat_key,
  string_key, ◌⊎◌,
}
use anser.Prelude.Text.{Text, codes, decimal}
use anser.Engine.{ToolCall, Message, ToolSchema, Completion, EngineError}
use anser.Runner.Detector.{LoopDetector}

abbrev pub default_turns_budget : ℕ
default_turns_budget = 80

abbrev pub landing_window : ℕ
landing_window = 5

abbrev pub reasoning_ceiling_finish : String
reasoning_ceiling_finish = "length"

abbrev pub loop_window : ℕ
loop_window = 6

abbrev pub loop_threshold : ℕ
loop_threshold = 3

-- `ToolError::Execute`.
pub record ToolError : Type 0 where
  pub name : String
  pub message : String

pub data Status : Type 0 where
  completed completed_budget_exhausted reasoning_budget_exhausted failed : Status

pub record SessionResult : Type 0 where
  pub final_text : Text
  pub turns : ℕ
  pub budget : ℕ
  pub status : Status

pub data RunnerError : Type 0 where
  engine : EngineError → RunnerError
  looping : (name : String) → RunnerError
  io : (message : String) → RunnerError

-- The lines of the session's ledger, without their timestamp and session id.
pub data Event : Type 0 where
  dispatch :
      (turn : ℕ) (finish_reason : Option String) (content : Text) (calls : List ToolCall) → Event
  tool_result : (turn : ℕ) (id name : String) (is_error : Bool) (output : Option Text) → Event
  salvage : (turn : ℕ) (reason : Option String) (content : Text) → Event
  salvage_failed : (turn : ℕ) (reason error : String) → Event
  final : (turn : ℕ) (status : Status) (final_text : Text) → Event

pub record SessionOptions : Type 0 where
  pub state : Option String
  pub workspace : Option String

-- `write` appends a line to the ledger and `write_file` writes a file below a new directory; both
-- give the error that the file system reports.
pub record Runner (W : Type 0) : Type 0 where
  pub chat : List Message → List ToolSchema → Bool → W → (EngineError ⊎ Completion) × W
  pub execute : String → String → W → (ToolError ⊎ Text) × W
  pub write : Event → W → Option String × W
  pub write_file : String → Text → W → Option String × W
  pub hash_action : String → String → ℕ
  pub tools : List ToolSchema
  pub session_id : String
  pub options : Option SessionOptions

-- The variables of `run_session`, with the lines that have been written to the ledger and the world.
pub record Session (W : Type 0) : Type 0 where
  pub messages : List Message
  pub loop_detector : LoopDetector
  pub turns : ℕ
  pub tool_activity : Bool
  pub landing_injected : Bool
  pub ledger : List Event
  pub world : W

unfoldable pub is_empty {ℓ} : {A : Type ℓ} → List A → Bool
is_empty [] = true
is_empty (x ∷ xs) = false

unfoldable pub ends_at_ceiling : Option String → Bool
ends_at_ceiling none = false
ends_at_ceiling (some f) = f == reasoning_ceiling_finish

unfoldable pub is_reasoning_ceiling : Completion → Bool
is_reasoning_ceiling c = is_empty c.tool_calls && ends_at_ceiling c.finish_reason

unfoldable pub msg : (role : String) → Text → Message
msg role content = record { role = role; content = content; tool_calls = []; tool_call_id = none }

unfoldable pub tool_msg : ToolCall → Text → Message
tool_msg tc text = record {
  role = "tool";
  content = text;
  tool_calls = [];
  tool_call_id = some tc.id;
}

unfoldable pub assistant_msg : Completion → Message
assistant_msg c = record {
  role = "assistant";
  content = c.content;
  tool_calls = c.tool_calls;
  tool_call_id = none;
}

unfoldable pub scratch_root : SessionOptions → Option String
scratch_root o = elim o.state [ some root ↦ some root | none ↦ o.workspace ]

unfoldable pub salvage_report_path : Option SessionOptions → String → Option String
salvage_report_path none session_id = none
salvage_report_path (some o) session_id = elim (scratch_root o) [
  | none ↦ none
  | some base ↦ some (base <> "/.scratch/salvage_" <> session_id <> ".md")
]

unfoldable pub salvage_report : (session_id : String) (turns : ℕ) (body : Text) → Text
salvage_report session_id turns body =
    codes (
      "# Salvage report — session `"
      <> session_id
      <> "`\n\n- **status:** `reasoning_budget_exhausted`\n- **turns consumed:** "
      <> decimal turns
      <> "\n\nThe model reached its reasoning ceiling before completing the task. The "
      <> "conversation history is preserved in the session event ledger; the plain-text summary below was "
      <> "extracted in a single non-coercive salvage turn (tools disabled, low effort).\n\n---\n\n")
    ++ body
    ++ codes "\n"
