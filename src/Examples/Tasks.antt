-- ===== src/Examples/Tasks.antt =====
-- The theorems on src/task/registry.rs, src/task/wait.rs and src/mcp/worker.rs at one task.
use anser.Prelude.{◌≡◌, refl, true, false, none, some, [], ◌∷◌, arith, string_key}
use anser.Prelude.Dict.{lookup, insert}
use text.Mathlib.TextEquality.{eq_iff}
use anser.Task.Liveness.{Kernel, pid_alive}
use anser.Task.Registry.Effects.{transition_stamp}
use anser.Task.Registry.Reap.{reap_orphans_dead}
use anser.Task.Registry.Laws.{current}
use anser.Task.Records.{
  orphan_reason, worker_died, ok, Codec, IsRoundTrip, TaskRecord, parsed, bytes, healthy, Env,
  Registry, executing, completed, failed, cancelled, fresh_record, no_fault,
}
use anser.Task.Registry.{transition, reap_orphans, refresh, read_disk}
use anser.Task.Registry.Named.{WellNamed}
use anser.Task.Registry.Final.{run, transitions, extends, reaps, lists, run_final}

abbrev codec : Codec
codec = record { Bytes = TaskRecord; encode = λ r. some r; decode = λ t. parsed t }

abbrev law : IsRoundTrip codec
law = record { written = λ r. r; encode-written = λ r. refl; decode-written = λ r. refl }

-- No process is alive but the caller.
abbrev kernel : Kernel
kernel = record { kill_ok = λ pid. false; eperm = λ pid. false; status_lines = λ pid. none }

abbrev env : Env
env = record { pid = 10; now = 1000; kernel = kernel; fault = λ id. no_fault }

abbrev later : Env
later = record env { now = 2000 }

abbrev waiting : TaskRecord
waiting = fresh_record "task_1" 500 "prompt" "/work" "session"

-- The task under a worker of another process.
abbrev working : TaskRecord
working = record waiting { status = executing; pid = some 7; started_at = some 600 }

abbrev done : TaskRecord
done = record waiting { status = completed; reason = some "done"; ended_at = some 900 }

abbrev holding : TaskRecord → Registry TaskRecord
holding rec = record {
  tasks = ("task_1", rec) ∷ [];
  next_seq = 1;
  terminal_txs = ("task_1", []) ∷ [];
  dir = record { mirrors = ("task_1", bytes rec) ∷ []; leftovers = [] };
}

holding-WellNamed : (rec : TaskRecord) → rec.id ≡ "task_1" → WellNamed codec (holding rec)
unfolding read_disk lookup
holding-WellNamed rec e = record {
  on_disk = λ id rec' h. ground (arith, eq_iff id "task_1", e);
  in_memory = λ id rec' h. ground (arith, eq_iff id "task_1", e);
}

read_disk-holding : (rec : TaskRecord) → read_disk codec "task_1" (holding rec) ≡ healthy rec
unfolding read_disk lookup
read_disk-holding rec = refl

read_lookup : (rec : TaskRecord) → lookup "task_1" (holding rec).tasks ≡ some rec
unfolding lookup
read_lookup rec = refl

run_final_example :
    read_disk codec "task_1" (
      run codec
        ((env, transitions "task_1" cancelled none)
          ∷ (env, extends "task_1" 9)
          ∷ (env, reaps)
          ∷ (env, lists)
          ∷ [])
        (holding done))
    ≡ healthy done
run_final_example =
    run_final codec law "task_1" done refl
      ((env, transitions "task_1" cancelled none)
        ∷ (env, extends "task_1" 9)
        ∷ (env, reaps)
        ∷ (env, lists)
        ∷ [])
      (holding done) (holding-WellNamed done refl) (read_disk-holding done)

abbrev failed_of_working : TaskRecord
failed_of_working = record working {
  status = failed;
  reason = some orphan_reason;
  heartbeat = 1000;
  ended_at = some 1000;
}

current-working : current codec "task_1" (holding working) ≡ some working
unfolding read_disk lookup refresh insert
current-working = refl

current-done : current codec "task_1" (holding done) ≡ some done
unfolding read_disk lookup refresh insert
current-done = refl

dead_worker : worker_died env (some 7) ≡ true
unfolding pid_alive
dead_worker = refl

transition_stamp_example :
    let res = transition codec env "task_1" completed (some "ok") (holding working) in
    let new = record working {
      status = completed;
      reason = some "ok";
      heartbeat = 1000;
      ended_at = some 1000;
    } in
    (res.0 ≡ ok new)
    × (read_disk codec "task_1" res.1 ≡ healthy new)
    × (lookup "task_1" res.1.tasks ≡ some new)
transition_stamp_example =
    transition_stamp codec env "task_1" completed (some "ok") (holding working) law
      (holding-WellNamed working refl) working current-working refl refl

reap_orphans_dead_example :
    read_disk codec "task_1" (reap_orphans codec env (holding working)).1
    ≡ healthy failed_of_working
reap_orphans_dead_example =
    reap_orphans_dead codec law env "task_1" working refl dead_worker refl (holding working) working
      (holding-WellNamed working refl) (read_lookup working) refl (read_disk-holding working)

abbrev cancelled_task : TaskRecord
cancelled_task = record waiting { status = cancelled; ended_at = some 700 }
