-- ===== src/Task/Registry/Defects.antt =====
-- `extend_budget` and `create` of src/task/registry.rs, and the calls of src/mcp/worker.rs on it.
use anser.Prelude.{ℕ, ◌≡◌, refl, String, true, false, some, arith, string_key, ◌∙◌, ==_self}
use anser.Prelude.Dict.{lookup, insert}
use anser.Prelude.Text.{decimal}
use text.Mathlib.TextEquality.{eq_iff}
use anser.Task.Records.{
  Codec, IsRoundTrip, TaskRecord, healthy, Env, Registry, Dir, no_fault, is_terminal, extended, new,
  ok, fresh_record, stamp,
}
use anser.Task.Registry.{
  read_disk, refresh, update, create, extend_budget, save_extended, save, commit, get,
}
use anser.Task.Worker.{
  Outcome, begin_work, start_task, finish_task, terminal_status, terminal_reason,
}
use anser.Task.Registry.Laws.{
  lookup-refresh, current, read_disk-remember, read_disk-save, tasks-save,
}
use anser.Task.Registry.Named.{WellNamed, refresh-WellNamed, commit-WellNamed}
use anser.Task.Registry.Effects.{save_done, commit_done, transition_stamp}

module _ (c : Codec) (law : IsRoundTrip c) (env : Env) (id : String) (n : ℕ) where
  save_extended_lost :
      (budget : ℕ) (rec : TaskRecord) (r : Registry c.Bytes)
      → rec.id ≡ id
      → env.fault id ≡ no_fault
      → read_disk c id r ≡ healthy rec
      → ((save_extended c env id budget r).0 ≡ some (ok budget))
        × (read_disk c id (save_extended c env id budget r).1 ≡ healthy rec)
        × (lookup id (save_extended c env id budget r).1.tasks ≡ some rec)
  unfolding save_extended get
  save_extended_lost budget rec r own f h = ground (
    arith,
    lookup-refresh c id id r rec h,
    ==_self id,
    eq_iff id rec.id,
    save_done c law env rec (refresh c id r),
    read_disk-save c law env rec (refresh c id r) id,
    tasks-save c env rec (refresh c id r),
  )

  -- Where the mirror of a task parses and the save goes through, an extension is reported and lost:
  -- afterwards memory and disk hold the record of the mirror, with the budget that it had.
  pub extend_budget_lost :
      (r : Registry c.Bytes) (mem rec : TaskRecord)
      → rec.id ≡ id
      → env.fault id ≡ no_fault
      → lookup id r.tasks ≡ some mem
      → is_terminal mem.status ≡ false
      → read_disk c id r ≡ healthy rec
      → ((extend_budget c env id n r).0 ≡ some (ok (extended mem.turns_budget n)))
        × (read_disk c id (extend_budget c env id n r).1 ≡ healthy rec)
        × (lookup id (extend_budget c env id n r).1.tasks ≡ some rec)
  unfolding extend_budget
  extend_budget_lost r mem rec own f e live h =
      let budget = extended mem.turns_budget n in
      let tasks = insert id (record mem { turns_budget = budget; heartbeat = env.now }) r.tasks in
      rw (e, live, extend_budget)
        (save_extended_lost budget rec (record r { tasks = tasks }) own f
          (read_disk-remember c tasks r id ∙ h))

module _ (c : Codec) (law : IsRoundTrip c) where
  -- `create` numbers tasks from 1 in each process. Where the save goes through, the first `create` of
  -- a new registry takes the id `task_1` and overwrites the mirror of that id, whatever another
  -- process has left in it, a terminal record included.
  pub create_overwrites :
      (env : Env) (prompt cwd session_id : String) (dir : Dir c.Bytes)
      → env.fault "task_1" ≡ no_fault
      → ((create c env prompt cwd session_id (new dir)).0 ≡ ok "task_1")
        × (read_disk c "task_1" (create c env prompt cwd session_id (new dir)).1
            ≡ healthy (fresh_record "task_1" env.now prompt cwd session_id))
  unfolding create new decimal
  create_overwrites env prompt cwd session_id dir f =
      let rec = fresh_record "task_1" env.now prompt cwd session_id in
      let r = record (new dir) { next_seq = 1 } in
      ground (
        arith,
        save_done c law env rec r f,
        read_disk-save c law env rec r "task_1",
        ==_self {A = String} "task_1",
        read_disk-remember c (insert "task_1" rec (save c env rec r).1.tasks) (save c env rec r).1
            "task_1",
      )

  start_task-commit :
      (env : Env) (id : String) (r : Registry c.Bytes) (rec : TaskRecord)
      → current c id r ≡ some rec
      → start_task c env id r
        ≡ (commit c env id (begin_work env.now env.pid rec) (refresh c id r)).1
  unfolding start_task update
  start_task-commit env id r rec e = rw (e, start_task, update)

  -- A worker that gets its slot marks its task as executing through `update`, which does not ask
  -- whether the task is terminal: a cancelled task is reopened, and its worker's outcome is then
  -- accepted as a second terminal state.
  pub start_task_reopens :
      (env later : Env) (id : String) (o : Outcome) (rec : TaskRecord) (r : Registry c.Bytes)
      → WellNamed c r
      → env.fault id ≡ no_fault
      → later.fault id ≡ no_fault
      → read_disk c id r ≡ healthy rec
      → is_terminal rec.status ≡ true
      → (read_disk c id (start_task c env id r) ≡ healthy (begin_work env.now env.pid rec))
        × ((final : TaskRecord) × ((finish_task c later id o (start_task c env id r)).0 ≡ ok final)
            × (read_disk c id (finish_task c later id o (start_task c env id r)).1 ≡ healthy final)
            × (final.status ≡ terminal_status o))
  unfolding finish_task
  start_task_reopens env later id o rec r w f g h over =
      let t = start_task c env id r in
      let working = begin_work env.now env.pid rec in
      let seen = lookup-refresh c id id t working begun ∙ rw ==_self in
      let done =
        transition_stamp c later id (terminal_status o) (some (terminal_reason o)) t law named
          working seen refl g in
      (
        begun,
        (
          stamp (terminal_status o) (some (terminal_reason o)) later.now working,
          done.0,
          done.1,
          refl,
        ),
      )
    where
      own : rec.id ≡ id
      own = w.on_disk id rec h

      seen_first : current c id r ≡ some rec
      seen_first = lookup-refresh c id id r rec h ∙ rw ==_self

      started :
          start_task c env id r
          ≡ (commit c env id (begin_work env.now env.pid rec) (refresh c id r)).1
      started = start_task-commit env id r rec seen_first

      begun : read_disk c id (start_task c env id r) ≡ healthy (begin_work env.now env.pid rec)
      begun =
          rw started
            (commit_done c law env id (begin_work env.now env.pid rec) (refresh c id r) own f).1

      named : WellNamed c (start_task c env id r)
      named = rw started (
          commit-WellNamed c law env id (begin_work env.now env.pid rec) (refresh c id r) own
            (refresh-WellNamed c id r w))
