-- ===== src/Task/Registry.antt =====
-- src/task/registry.rs: the methods of the registry, on records in memory and mirrors on disk.
pub mod Laws
pub mod Named
pub mod Defects
pub mod Reap
pub mod Effects
pub mod Final
use anser.Prelude.{
  ℕ, suc, ◌+◌, ◌≡◌, min, String, ◌<>◌, Bool, true, false, ◌&&◌, Option, none, some, List, [], ◌∷◌,
  ◌++◌, if◌then◌else◌, not, map, ◌%◌, ◌^◌, string_key,
}
use anser.Prelude.Dict.{Dict, lookup, insert}
use anser.Prelude.Text.{decimal}
use text.Mathlib.Text.{starts_with}
use anser.Task.Liveness.{Kernel, pid_alive}
use anser.Task.Records.{
  Codec, Dir, DiskRead, Env, File, Registry, Result, TaskRecord, TaskStatus, TempName, absent,
  already_terminal, broadcast, bytes, candidates, corrupt, create_dir_fails, err, extended, failed,
  fresh_record, healthy, io, is_terminal, load_one, malformed, new, no_fault, not_found, ok,
  orphan_reason, parsed, rename_fails, stamp, unreadable, worker_died, write_fails,
}

module _ (c : Codec) where
  -- A rename replaces the mirror as a whole; a failure before it leaves the mirror as it was.
  unfoldable pub save_to_disk : Env → TaskRecord → Dir c.Bytes → Bool × Dir c.Bytes
  save_to_disk env rec d = elim (c.encode rec) [
    | none ↦ (false, d)
    | some t ↦ elim (env.fault rec.id) [
      | no_fault ↦ (true, record d { mirrors = insert rec.id (bytes t) d.mirrors })
      | create_dir_fails ↦ (false, d)
      | write_fails ↦ (false, record d { leftovers = left ∷ d.leftovers })
      | rename_fails ↦ (false, record d { leftovers = left ∷ d.leftovers })
    ]
  ]
    where
      left : TempName
      left = record { id = rec.id; pid = env.pid; now = env.now }

  unfoldable pub save : Env → TaskRecord → Registry c.Bytes → Bool × Registry c.Bytes
  save env rec r = let (done, dir) = save_to_disk env rec r.dir in (done, record r { dir = dir })

  unfoldable pub read_disk : String → Registry c.Bytes → DiskRead
  read_disk id r = elim (lookup id r.dir.mirrors) [
    | none ↦ absent
    | some (unreadable message) ↦ corrupt message
    | some (bytes t) ↦ elim (c.decode t) [
      | malformed message ↦ corrupt message
      | parsed rec ↦ healthy rec
    ]
  ]

  -- A mirror that parses replaces the record in memory.
  unfoldable pub refresh : String → Registry c.Bytes → Registry c.Bytes
  refresh id r = elim (read_disk id r) [
    | healthy rec ↦ record r { tasks = insert id rec r.tasks }
    | _ ↦ r
  ]

  unfoldable pub create :
      Env → (prompt cwd session_id : String) → Registry c.Bytes → Result String × Registry c.Bytes
  create env prompt cwd session_id r =
      let seq = r.next_seq + 1 in
      let id = "task_" <> decimal seq in
      let rec = fresh_record id env.now prompt cwd session_id in
      let (done, r') = save env rec (record r { next_seq = seq }) in
      if done then (ok id, record r' { tasks = insert id rec r'.tasks }) else (err io, r')

  unfoldable pub get : String → Registry c.Bytes → Option TaskRecord × Registry c.Bytes
  get id r = let r' = refresh id r in (lookup id r'.tasks, r')

  -- The end of `update` and of `transition`: keep the new record, then mirror it.
  unfoldable pub commit :
      Env → String → TaskRecord → Registry c.Bytes → Result TaskRecord × Registry c.Bytes
  commit env id rec r =
      let (done, r') = save env rec (record r { tasks = insert id rec r.tasks }) in
      (if done then ok rec else err io, r')

  unfoldable pub update :
      Env
      → String
      → (TaskRecord → TaskRecord)
      → Registry c.Bytes
      → Result TaskRecord × Registry c.Bytes
  update env id f r0 =
      let r = refresh id r0 in
      elim (lookup id r.tasks) [
        | none ↦ (err (not_found id), r)
        | some rec ↦ commit env id (f rec) r
      ]

  -- Waiters are woken only after the mirror is written, and only by a terminal state.
  unfoldable pub wake :
      Env
      → String
      → TaskStatus
      → Result TaskRecord × Registry c.Bytes
      → Result TaskRecord × Registry c.Bytes
  wake env id target (err e, r) = (err e, r)
  wake env id target (ok rec, r) =
      (ok rec, if is_terminal target then broadcast id env.now r else r)

  unfoldable pub transition :
      Env
      → String
      → TaskStatus
      → Option String
      → Registry c.Bytes
      → Result TaskRecord × Registry c.Bytes
  transition env id target reason r0 =
      let r = refresh id r0 in
      elim (lookup id r.tasks) [
        | none ↦ (err (not_found id), r)
        | some rec ↦
            if is_terminal rec.status
            then (err (already_terminal id rec.status), r)
            else wake env id target (commit env id (stamp target reason env.now rec) r)
      ]

  abbrev pub counted : Result TaskRecord × Registry c.Bytes → ℕ × Registry c.Bytes
  counted (ok rec, r) = (1, r)
  counted (err e, r) = (0, r)

  -- One round of the loop of `reap_orphans`.
  unfoldable pub reap_one : Env → String → Registry c.Bytes → ℕ × Registry c.Bytes
  reap_one env id r0 =
      let (rec, r) = get id r0 in
      elim rec [
        | none ↦ (0, r)
        | some rec ↦
            if worker_died env rec.pid
            then counted (transition env id failed (some orphan_reason) r)
            else (0, r)
      ]

  unfoldable pub reap_all : Env → List String → Registry c.Bytes → ℕ × Registry c.Bytes
  reap_all env [] r = (0, r)
  reap_all env (id ∷ ids) r =
      let (n, r') = reap_one env id r in let (m, r'') = reap_all env ids r' in (n + m, r'')

  unfoldable pub reap_orphans : Env → Registry c.Bytes → ℕ × Registry c.Bytes
  reap_orphans env r = reap_all env (candidates r.tasks) r

  -- After the record in memory is changed it is fetched by `get`, and what that returns is saved.
  -- The last case is the panic of `expect`.
  unfoldable pub save_extended :
      Env → String → ℕ → Registry c.Bytes → Option (Result ℕ) × Registry c.Bytes
  save_extended env id budget r0 =
      let (rec, r) = get id r0 in
      elim rec [
        | some rec ↦
            let (done, r') = save env rec r in (some (if done then ok budget else err io), r')
        | none ↦ (none, r)
      ]

  unfoldable pub extend_budget :
      Env → String → ℕ → Registry c.Bytes → Option (Result ℕ) × Registry c.Bytes
  extend_budget env id n r = elim (lookup id r.tasks) [
    | none ↦ (some (err (not_found id)), r)
    | some rec ↦
        if is_terminal rec.status
        then (some (err (already_terminal id rec.status)), r)
        else let budget = extended rec.turns_budget n in
          save_extended env id budget (record r {
            tasks = insert id (record rec { turns_budget = budget; heartbeat = env.now }) r.tasks;
          })
  ]

  -- The mirrors that parse, by the id that stands in them.
  unfoldable pub load_all :
      Dict String (File c.Bytes) → Dict String TaskRecord → Dict String TaskRecord
  load_all [] tasks = tasks
  load_all ((name, unreadable _) ∷ d) tasks = load_all d tasks
  load_all ((name, bytes t) ∷ d) tasks = load_all d (load_one name (c.decode t) tasks)

  unfoldable pub list : Registry c.Bytes → List TaskRecord × Registry c.Bytes
  list r =
      let tasks = load_all r.dir.mirrors r.tasks in
      (map (λ (_, rec). rec) tasks, record r { tasks = tasks })
