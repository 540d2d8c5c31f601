-- ===== src/Examples/Locks.antt =====
-- The theorems on src/state/mod.rs at one lock.
use anser.Prelude.{◌≡◌, refl, true, some, [], ◌∷◌, arith, string_key}
use anser.Prelude.Dict.{lookup}
use anser.State.{can_create, Locks, value, Env, alone, ok, acquired, held_by, acquire, write_lock}
use anser.State.Sequences.{Calls, over, asks, acquire_exclusive}

abbrev first : Env
first = record {
  pid = 10;
  now = 50000;
  dir_ok = true;
  create_ok = true;
  write_ok = true;
  rename_ok = true;
  recreate_ok = true;
  remove_ok = true;
}

abbrev second : Env
second = record first { pid = 20; now = 50010 }

abbrev empty : Locks
empty = record { files = []; tombstones = [] }

-- A lock that process 7 took at 1000 with a time to live of 90 s.
abbrev stale : Locks
stale = record { files = ("wait", value (some 7) (some 1000) (some 90000)) ∷ []; tombstones = [] }

lookup_stale : lookup "wait" stale.files ≡ some (value (some 7) (some 1000) (some 90000))
unfolding lookup
lookup_stale = refl

won : (acquire first alone "wait" 30000 empty).0 ≡ ok acquired
unfolding acquire write_lock lookup can_create
won = refl

-- Behind the win of `first`, `second` asks for this lock and for another one.
abbrev asked : Locks
asked =
    (acquire second alone "other" 30000
      (acquire second alone "wait" 30000 (acquire first alone "wait" 30000 empty).1).1).1

asked-Calls : Calls first "wait" (acquire first alone "wait" 30000 empty).1 asked
asked-Calls =
    asks second "wait" 30000 (λ same. omega arith)
      (asks second "other" 30000 (λ same. omega arith) over)

acquire_exclusive_example : acquire second alone "wait" 30000 asked ≡ (ok (held_by 10), asked)
acquire_exclusive_example =
    acquire_exclusive first second alone alone "wait" 30000 30000 empty asked (omega arith) refl
      (omega arith) won asked-Calls
