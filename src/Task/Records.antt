-- ===== src/Task/Records.antt =====
-- src/task/registry.rs: task records, the state of the registry, and what its methods do to records.
use anser.Prelude.{
  ℕ, ◌+◌, ◌≡◌, min, String, Bool, true, false, Option, none, some, List, [], ◌∷◌, ◌++◌,
  if◌then◌else◌, not, ◌%◌, ◌^◌, string_key,
}
use anser.Prelude.Dict.{Dict, lookup, insert}
use text.Mathlib.Text.{starts_with}
use anser.Task.Liveness.{Kernel, pid_alive}

pub data TaskStatus : Type 0 where
  queued executing completed failed cancelled : TaskStatus

abbrev pub is_terminal : TaskStatus → Bool
is_terminal queued = false
is_terminal executing = false
is_terminal completed = true
is_terminal failed = true
is_terminal cancelled = true

abbrev pub is_executing : TaskStatus → Bool
is_executing executing = true
is_executing _ = false

pub record TaskRecord : Type 0 where
  pub id : String
  pub status : TaskStatus
  pub reason : Option String
  pub prompt : String
  pub cwd : String
  pub session_id : String
  pub pid : Option ℕ
  pub heartbeat : ℕ
  pub turns_budget : ℕ
  pub created_at : ℕ
  pub started_at : Option ℕ
  pub ended_at : Option ℕ

pub data RegistryError : Type 0 where
  not_found : (id : String) → RegistryError
  already_terminal : (id : String) (status : TaskStatus) → RegistryError
  io : RegistryError

pub data Result {ℓ} (A : Type ℓ) : Type ℓ where
  ok : A → Result A
  err : RegistryError → Result A

pub data Decoded : Type 0 where
  parsed : TaskRecord → Decoded
  malformed : (message : String) → Decoded

-- `serde_json` on task records. `Bytes` is what a file holds.
pub record Codec : Type 1 where
  pub Bytes : Type 0
  pub encode : TaskRecord → Option Bytes
  pub decode : Bytes → Decoded

-- A record is written without an error, and reads back as it was.
pub record IsRoundTrip (c : Codec) : Type 0 where
  pub written : TaskRecord → c.Bytes
  pub encode-written : (r : TaskRecord) → c.encode r ≡ some (written r)
  pub decode-written : (r : TaskRecord) → c.decode (written r) ≡ parsed r

-- A file that is there but cannot be read as text gives the error's message.
pub data File (B : Type 0) : Type 0 where
  bytes : B → File B
  unreadable : (message : String) → File B

pub data DiskRead : Type 0 where
  absent : DiskRead
  corrupt : (message : String) → DiskRead
  healthy : TaskRecord → DiskRead

-- How far one `save_to_disk` comes.
pub data Fault : Type 0 where
  no_fault create_dir_fails write_fails rename_fails : Fault

-- The calling process, the clock, the kernel, and the fault that saving a task's mirror meets.
pub record Env : Type 0 where
  pub pid : ℕ
  pub now : ℕ
  pub kernel : Kernel
  pub fault : String → Fault

-- The name `<id>.tmp_<pid>_<now>` of a temporary file.
pub record TempName : Type 0 where
  pub id : String
  pub pid : ℕ
  pub now : ℕ

-- `tasks/`: the mirrors `<id>.json` by id, and the temporary files that failed saves left behind.
pub record Dir (B : Type 0) : Type 0 where
  pub mirrors : Dict String (File B)
  pub leftovers : List TempName

-- A channel is the list of the messages that were sent on it.
pub record Registry (B : Type 0) : Type 0 where
  pub tasks : Dict String TaskRecord
  pub next_seq : ℕ
  pub terminal_txs : Dict String (List ℕ)
  pub dir : Dir B

module _ {B : Type 0} where
  -- `TaskRegistry::new` over the directory that is there.
  unfoldable pub new : Dir B → Registry B
  new dir = record { tasks = []; next_seq = 0; terminal_txs = []; dir = dir }

  unfoldable pub subscribe_terminal : String → Registry B → Registry B
  subscribe_terminal id r = elim (lookup id r.terminal_txs) [
    | none ↦ record r { terminal_txs = insert id [] r.terminal_txs }
    | some sent ↦ r
  ]

  -- `tx.send(now)` if the task has a channel.
  unfoldable pub broadcast : String → ℕ → Registry B → Registry B
  broadcast id now r = elim (lookup id r.terminal_txs) [
    | none ↦ r
    | some sent ↦ record r { terminal_txs = insert id (sent ++ now ∷ []) r.terminal_txs }
  ]

-- The new record of a task in `create`.
abbrev pub fresh_record : String → ℕ → (prompt cwd session_id : String) → TaskRecord
fresh_record id now prompt cwd session_id = record {
  id = id;
  status = queued;
  reason = none;
  prompt = prompt;
  cwd = cwd;
  session_id = session_id;
  pid = none;
  heartbeat = now;
  turns_budget = 0;
  created_at = now;
  started_at = none;
  ended_at = none;
}

abbrev pub or_now : Option ℕ → ℕ → Option ℕ
or_now none now = some now
or_now (some t) now = some t

-- What `transition` writes into the record.
abbrev pub stamp : TaskStatus → Option String → ℕ → TaskRecord → TaskRecord
stamp target reason now rec = record rec {
  status = target;
  reason = reason;
  heartbeat = now;
  started_at = if is_executing target then or_now rec.started_at now else rec.started_at;
  ended_at = if is_terminal target then some now else rec.ended_at;
}

abbrev pub max_elastic_turns : ℕ
max_elastic_turns = 200

unfoldable pub load_one : String → Decoded → Dict String TaskRecord → Dict String TaskRecord
load_one name (malformed _) tasks = tasks
load_one name (parsed rec) tasks =
    if starts_with name "task_" then insert rec.id rec tasks else tasks

abbrev pub orphan_reason : String
orphan_reason = "orphaned worker died"

-- A worker that is known, and dead.
abbrev pub worker_died : Env → Option ℕ → Bool
worker_died env none = false
worker_died env (some pid) = not (pid_alive env.kernel env.pid pid)

-- The new budget; `u32` addition wraps in a release build.
abbrev pub extended : ℕ → ℕ → ℕ
extended budget n = min ((budget + n) % 2 ^ 32) max_elastic_turns

-- The ids of the records in memory that are executing.
unfoldable pub candidates : Dict String TaskRecord → List String
candidates [] = []
candidates ((_, rec) ∷ d) =
    let rest = candidates d in if is_executing rec.status then rec.id ∷ rest else rest
