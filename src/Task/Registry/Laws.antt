-- ===== src/Task/Registry/Laws.antt =====
-- What each part of a registry call leaves on disk and in memory, src/task/registry.rs.
use anser.Prelude.{
  ℕ, ◌≡◌, refl, String, true, false, ◌&&◌, Option, none, some, ◌⊎◌, inl, inr, arith, if◌then◌else◌,
  ◌==◌, string_key, Bool-cases, Option-cases,
}
use anser.Prelude.Dict.{Dict, lookup, insert, lookup-insert}
use anser.Task.Records.{
  worker_died, orphan_reason, failed, extended, Codec, IsRoundTrip, TaskRecord, TaskStatus, healthy,
  Env, Registry, Result, ok, err, not_found, already_terminal, is_terminal, bytes, stamp, broadcast,
  io,
}
use anser.Task.Registry.{
  counted, reap_one, save_extended, extend_budget, get, save_to_disk, save, read_disk, refresh,
  commit, wake, transition,
}

module _ (c : Codec) (law : IsRoundTrip c) where
  pub read_disk-save :
      (env : Env) (rec : TaskRecord) (r : Registry c.Bytes) (j : String)
      → read_disk c j (save c env rec r).1
        ≡ (if (save c env rec r).0 && j == rec.id then healthy rec else read_disk c j r)
  unfolding save save_to_disk read_disk
  read_disk-save env rec r j = ground (
    arith,
    law.encode-written rec,
    law.decode-written rec,
    lookup-insert j rec.id (bytes (law.written rec)) r.dir.mirrors,
  )

module _ (c : Codec) where
  pub tasks-save :
      (env : Env) (rec : TaskRecord) (r : Registry c.Bytes) → (save c env rec r).1.tasks ≡ r.tasks
  unfolding save
  tasks-save env rec r = refl

  pub read_disk-remember :
      (tasks : Dict String TaskRecord) (r : Registry c.Bytes) (j : String)
      → read_disk c j (record r { tasks = tasks }) ≡ read_disk c j r
  unfolding read_disk
  read_disk-remember tasks r j = refl

  pub read_disk-refresh :
      (id j : String) (r : Registry c.Bytes) → read_disk c j (refresh c id r) ≡ read_disk c j r
  unfolding refresh read_disk
  read_disk-refresh id j r = ground arith

  pub lookup-refresh :
      (id j : String) (r : Registry c.Bytes) (rec : TaskRecord)
      → read_disk c id r ≡ healthy rec
      → lookup j (refresh c id r).tasks ≡ (if j == id then some rec else lookup j r.tasks)
  unfolding refresh
  lookup-refresh id j r rec h = ground (arith, lookup-insert j id rec r.tasks)

  pub read_disk-broadcast :
      (id j : String) (now : ℕ) (r : Registry c.Bytes)
      → read_disk c j (broadcast id now r) ≡ read_disk c j r
  unfolding broadcast read_disk
  read_disk-broadcast id j now r = ground arith

  -- The record that a call works with: what `get` would answer.
  abbrev pub current : String → Registry c.Bytes → Option TaskRecord
  current id r = lookup id (refresh c id r).tasks

  pub transition_cases {ℓ} :
      (P : Result TaskRecord × Registry c.Bytes → Type ℓ) (env : Env) (id : String)
      (target : TaskStatus) (reason : Option String) (r : Registry c.Bytes)
      → (current id r ≡ none → P (err (not_found id), refresh c id r))
      → ((rec : TaskRecord)
          → current id r ≡ some rec
          → is_terminal rec.status ≡ true
          → P (err (already_terminal id rec.status), refresh c id r))
      → ((rec : TaskRecord)
          → current id r ≡ some rec
          → is_terminal rec.status ≡ false
          → P (
              wake c env id target
                (commit c env id (stamp target reason env.now rec) (refresh c id r))))
      → P (transition c env id target reason r)
  unfolding transition
  transition_cases P env id target reason r missing done live = elim (Option-cases (current id r)) [
    | inl e ↦ rw (e, transition) (missing e)
    | inr (rec, e) ↦ elim (Bool-cases (is_terminal rec.status)) [
      | inl t ↦ rw (e, t, transition) (done rec e t)
      | inr t ↦ rw (e, t, transition) (live rec e t)
    ]
  ]

  pub read_disk-wake :
      (env : Env) (id : String) (target : TaskStatus) (res : Result TaskRecord × Registry c.Bytes)
      (j : String)
      → read_disk c j (wake c env id target res).1 ≡ read_disk c j res.1
  unfolding wake
  read_disk-wake env id target (err e, r) j = refl
  read_disk-wake env id target (ok rec, r) j = ground (arith, read_disk-broadcast id j env.now r)

  pub tasks-wake :
      (env : Env) (id : String) (target : TaskStatus) (res : Result TaskRecord × Registry c.Bytes)
      → (wake c env id target res).1.tasks ≡ res.1.tasks
  unfolding wake broadcast
  tasks-wake env id target (err e, r) = refl
  tasks-wake env id target (ok rec, r) = ground arith

  pub result-wake :
      (env : Env) (id : String) (target : TaskStatus) (res : Result TaskRecord × Registry c.Bytes)
      → (wake c env id target res).0 ≡ res.0
  unfolding wake
  result-wake env id target (err e, r) = refl
  result-wake env id target (ok rec, r) = refl

  pub tasks-commit :
      (env : Env) (id : String) (rec : TaskRecord) (r : Registry c.Bytes)
      → (commit c env id rec r).1.tasks ≡ insert id rec r.tasks
  unfolding commit
  tasks-commit env id rec r =
      ground (arith, tasks-save env rec (record r { tasks = insert id rec r.tasks }))

-- A committed record is in memory at once. Its mirror holds it if the save went through, and else
-- what it held before; no other mirror changes.
module _ (c : Codec) (law : IsRoundTrip c) where
  pub read_disk-commit :
      (env : Env) (id : String) (rec : TaskRecord) (r : Registry c.Bytes) (j : String)
      → ((commit c env id rec r).0 ≡ ok rec)
          × (read_disk c j (commit c env id rec r).1
              ≡ (if j == rec.id then healthy rec else read_disk c j r))
        ⊎ ((commit c env id rec r).0 ≡ err io)
          × (read_disk c j (commit c env id rec r).1 ≡ read_disk c j r)
  unfolding commit
  read_disk-commit env id rec r j = ground (
    arith,
    read_disk-save c law env rec (record r { tasks = insert id rec r.tasks }) j,
    read_disk-remember c (insert id rec r.tasks) r j,
  )

module _ {ℓ} (c : Codec) (P : Registry c.Bytes → Type ℓ) (env : Env) (id : String)
    (r : Registry c.Bytes) where
  pub counted_state : (res : Result TaskRecord × Registry c.Bytes) → P res.1 → P (counted c res).1
  counted_state (ok rec, r') h = h
  counted_state (err e, r') h = h

  pub reap_one_cases :
      P (refresh c id r)
      → ((rec : TaskRecord)
          → current c id r ≡ some rec
          → worker_died env rec.pid ≡ true
          → P (transition c env id failed (some orphan_reason) (refresh c id r)).1)
      → P (reap_one c env id r).1
  unfolding reap_one get
  reap_one_cases spared reaped = elim (Option-cases (current c id r)) [
    | inl e ↦ rw (e, reap_one) spared
    | inr (rec, e) ↦ elim (Bool-cases (worker_died env rec.pid)) [
      | inl dead ↦
          rw (e, dead, reap_one)
            (counted_state (transition c env id failed (some orphan_reason) (refresh c id r))
              (reaped rec e dead))
      | inr lives ↦ rw (e, lives, reap_one) spared
    ]
  ]

  pub save_extended_cases :
      (budget : ℕ)
      → P (refresh c id r)
      → ((rec : TaskRecord) → current c id r ≡ some rec → P (save c env rec (refresh c id r)).1)
      → P (save_extended c env id budget r).1
  unfolding save_extended get
  save_extended_cases budget gone kept = elim (Option-cases (current c id r)) [
    | inl e ↦ rw (e, save_extended) gone
    | inr (rec, e) ↦ rw (e, save_extended) (kept rec e)
  ]

  pub extend_budget_cases :
      (n : ℕ)
      → P r
      → ((rec : TaskRecord) (budget : ℕ)
          → lookup id r.tasks ≡ some rec
          → P
              (save_extended c env id budget (record r {
                tasks =
                    insert id (record rec { turns_budget = budget; heartbeat = env.now }) r.tasks;
              })).1)
      → P (extend_budget c env id n r).1
  unfolding extend_budget
  extend_budget_cases n refused extends = elim (Option-cases (lookup id r.tasks)) [
    | inl e ↦ rw (e, extend_budget) refused
    | inr (rec, e) ↦ elim (Bool-cases (is_terminal rec.status)) [
      | inl done ↦ rw (e, done, extend_budget) refused
      | inr live ↦ rw (e, live, extend_budget) (extends rec (extended rec.turns_budget n) e)
    ]
  ]
