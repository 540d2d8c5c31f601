-- ===== src/Task/Registry/Effects.antt =====
-- What `transition` and `reap_orphans` of src/task/registry.rs bring about.
use anser.Prelude.{
  ◌≡◌, String, Bool, true, false, Option, none, some, arith, ◌≢◌, if◌then◌else◌, string_key, ◌∙◌,
}
use anser.Prelude.Dict.{lookup, insert, lookup-insert_self}
use text.Mathlib.TextEquality.{eq_iff}
use anser.Task.Records.{
  Codec, IsRoundTrip, TaskRecord, TaskStatus, healthy, Env, Registry, RegistryError, Result, ok,
  err, no_fault, not_found, already_terminal, is_terminal, is_executing, stamp, or_now,
}
use anser.Task.Registry.{save_to_disk, save, read_disk, refresh, commit, wake, transition}
use anser.Task.Registry.Laws.{
  read_disk-save, tasks-save, read_disk-refresh, current, transition_cases, read_disk-wake,
  tasks-wake, read_disk-commit, result-wake,
}
use anser.Task.Registry.Named.{WellNamed, current-id}

module _ (c : Codec) (law : IsRoundTrip c) where
  pub save_done :
      (env : Env) (rec : TaskRecord) (r : Registry c.Bytes)
      → env.fault rec.id ≡ no_fault
      → (save c env rec r).0 ≡ true
  unfolding save save_to_disk
  save_done env rec r f = ground (arith, law.encode-written rec)

  pub commit_done :
      (env : Env) (id : String) (rec : TaskRecord) (r : Registry c.Bytes)
      → rec.id ≡ id
      → env.fault id ≡ no_fault
      → ((commit c env id rec r).0 ≡ ok rec)
        × (read_disk c id (commit c env id rec r).1 ≡ healthy rec)
        × (lookup id (commit c env id rec r).1.tasks ≡ some rec)
  unfolding commit
  commit_done env id rec r e f = ground (
    arith,
    save_done env rec (record r { tasks = insert id rec r.tasks }),
    read_disk-save c law env rec (record r { tasks = insert id rec r.tasks }) id,
    tasks-save c env rec (record r { tasks = insert id rec r.tasks }),
    lookup-insert_self id rec r.tasks,
    eq_iff id rec.id,
  )

abbrev pub is_terminal_or_absent : Option TaskRecord → Bool
is_terminal_or_absent none = true
is_terminal_or_absent (some rec) = is_terminal rec.status

abbrev pub refusal : String → Option TaskRecord → RegistryError
refusal id none = not_found id
refusal id (some rec) = already_terminal id rec.status

module _ (c : Codec) (env : Env) (id : String) (target : TaskStatus) (reason : Option String)
    (r : Registry c.Bytes) where
  abbrev outcome : Result TaskRecord × Registry c.Bytes
  outcome = transition c env id target reason r

  -- The new record is written over what `get` would answer.
  abbrev committed : TaskRecord → Result TaskRecord × Registry c.Bytes
  committed rec = commit c env id (stamp target reason env.now rec) (refresh c id r)

  transition_live :
      (rec : TaskRecord)
      → current c id r ≡ some rec
      → is_terminal rec.status ≡ false
      → transition c env id target reason r ≡ wake c env id target (committed rec)
  unfolding transition
  transition_live rec e live = rw (e, live, transition)

  -- A transition of a task that is already terminal, or that does not exist, is refused, and touches
  -- neither the disk nor the waiters.
  pub transition_refused :
      (j : String)
      → is_terminal_or_absent (current c id r) ≡ true
      → (outcome.0 ≡ err (refusal id (current c id r)))
        × (read_disk c j outcome.1 ≡ read_disk c j r)
        × (outcome.1.terminal_txs ≡ r.terminal_txs)
  unfolding transition refresh
  transition_refused j h =
      transition_cases c
        (λ res.
          (res.0 ≡ err (refusal id (current c id r)))
          × (read_disk c j res.1 ≡ read_disk c j r)
          × (res.1.terminal_txs ≡ r.terminal_txs))
        env id target reason r (λ e. (rw e, read_disk-refresh c id j r, same))
        (λ rec e _. (rw e, read_disk-refresh c id j r, same)) (λ rec e live. ground arith)
    where
      same : (refresh c id r).terminal_txs ≡ r.terminal_txs
      same = ground arith

  module _ (law : IsRoundTrip c) (w : WellNamed c r) where
    -- Where each record stands under its own id and the save of the mirror meets no fault, a task that
    -- is not terminal takes the new state, in memory and on disk alike: the status, the reason and the
    -- heartbeat are new, the start is stamped by the first `executing` only, the end by
    -- a terminal state, and the rest of the record stays.
    pub transition_stamp :
        (rec : TaskRecord)
        → current c id r ≡ some rec
        → is_terminal rec.status ≡ false
        → env.fault id ≡ no_fault
        → let new = record rec {
          status = target;
          reason = reason;
          heartbeat = env.now;
          started_at =
              if is_executing target then or_now rec.started_at env.now else rec.started_at;
          ended_at = if is_terminal target then some env.now else rec.ended_at;
        } in
          (outcome.0 ≡ ok new)
          × (read_disk c id outcome.1 ≡ healthy new)
          × (lookup id outcome.1.tasks ≡ some new)
    transition_stamp rec e live f =
        let new = stamp target reason env.now rec in
        let done = commit_done c law env id new (refresh c id r) (current-id c id r rec w e) f in
        rw (transition_live rec e live) (
          result-wake c env id target (committed rec) ∙ done.0,
          read_disk-wake c env id target (committed rec) id ∙ done.1,
          rw tasks-wake done.2,
        )

    -- No transition changes the mirror of another task.
    pub transition_frame : (j : String) → j ≢ id → read_disk c j outcome.1 ≡ read_disk c j r
    transition_frame j ne =
        transition_cases c (λ res. read_disk c j res.1 ≡ read_disk c j r) env id target reason r
          (λ _. read_disk-refresh c id j r) (λ _ _ _. read_disk-refresh c id j r)
          λ rec e live. ground (
            arith,
            read_disk-wake c env id target (committed rec) j,
            read_disk-commit c law env id (stamp target reason env.now rec) (refresh c id r) j,
            current-id c id r rec w e,
            read_disk-refresh c id j r,
            eq_iff j rec.id,
          )
