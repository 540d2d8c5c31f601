-- ===== src/Task/Worker.antt =====
-- src/mcp/worker.rs: what a worker does to its task's record, before and after the session.
use anser.Prelude.{ℕ, String, some, if◌then◌else◌, ◌==◌, string_key}
use anser.Task.Records.{
  Codec, TaskRecord, TaskStatus, executing, completed, failed, Env, Registry, Result,
}
use anser.Task.Registry.{update, transition}

-- The closure that the worker passes to `update`.
abbrev pub begin_work : (now pid : ℕ) → TaskRecord → TaskRecord
begin_work now pid rec = record rec {
  status = executing;
  pid = some pid;
  started_at = some now;
  heartbeat = now;
}

-- What `run_session` returns: the status and the final text, or an error.
pub data Outcome : Type 0 where
  session : (status final_text : String) → Outcome
  session_error : (message : String) → Outcome

abbrev pub terminal_status : Outcome → TaskStatus
terminal_status (session status _) = if status == "failed" then failed else completed
terminal_status (session_error _) = failed

abbrev pub terminal_reason : Outcome → String
terminal_reason (session _ final_text) = final_text
terminal_reason (session_error message) = message

module _ (c : Codec) where
  unfoldable pub start_task : Env → String → Registry c.Bytes → Registry c.Bytes
  start_task env id r = (update c env id (begin_work env.now env.pid) r).1

  unfoldable pub finish_task :
      Env → String → Outcome → Registry c.Bytes → Result TaskRecord × Registry c.Bytes
  finish_task env id o r = transition c env id (terminal_status o) (some (terminal_reason o)) r
