-- ===== src/State.antt =====
-- src/state/mod.rs: exclusive lockfiles with a time to live.
pub mod Laws
pub mod Races
pub mod Sequences
use anser.Prelude.{
  ℕ, ◌-◌, ◌%◌, ◌^◌, String, Bool, true, false, Option, none, some, ltb, if◌then◌else◌,
}
use anser.Prelude.{◌==◌, nat_key, string_key}
use anser.Prelude.Dict.{Dict, lookup, insert, erase}

pub record LockInfo : Type 0 where
  pub pid : ℕ
  pub held_at : ℕ
  pub ttl_ms : ℕ

-- What stands in a lockfile, as `serde_json` reads it: a value with the members `pid`, `held_at`
-- and `ttl` where they are numbers, a text that is no JSON, or bytes that cannot be read.
pub data LockFile : Type 0 where
  value : (pid held_at ttl : Option ℕ) → LockFile
  invalid_json : LockFile
  unreadable : LockFile

pub data IoError : Type 0 where
  create_dir_failed write_failed invalid_data read_failed remove_failed : IoError

pub data IoResult {ℓ} (A : Type ℓ) : Type ℓ where
  ok : A → IoResult A
  err : IoError → IoResult A

pub data AcquireResult : Type 0 where
  acquired : AcquireResult
  held_by : (pid : ℕ) → AcquireResult

pub data ReleaseError : Type 0 where
  foreign : (name : String) (pid : ℕ) → ReleaseError
  not_held : (name : String) → ReleaseError
  io : IoError → ReleaseError

pub data ReleaseOutcome : Type 0 where
  released : ReleaseOutcome
  refused : ReleaseError → ReleaseOutcome

-- The directory `locks/`: the lockfiles and the tombstones, by the name of the lock.
pub record Locks : Type 0 where
  pub files : Dict String LockFile
  pub tombstones : Dict String LockFile

-- The process that calls, the clock, and which system calls succeed.
pub record Env : Type 0 where
  pub pid : ℕ
  pub now : ℕ
  pub dir_ok : Bool
  pub create_ok : Bool
  pub write_ok : Bool
  pub rename_ok : Bool
  pub recreate_ok : Bool
  pub remove_ok : Bool

-- What other processes do to the directory while one call of `acquire` runs: before its second
-- read, before its rename, and before its second exclusive create.
pub record Rivals : Type 0 where
  pub before_reread : Locks → Locks
  pub before_rename : Locks → Locks
  pub before_create : Locks → Locks

abbrev pub alone : Rivals
alone = record { before_reread = λ s. s; before_rename = λ s. s; before_create = λ s. s }

abbrev pub or_zero : Option ℕ → ℕ
or_zero none = 0
or_zero (some n) = n

-- `read_lock`, once the file is known to exist.
unfoldable pub parse_lock : LockFile → IoResult LockInfo
parse_lock (value pid held_at ttl) =
    ok (record { pid = or_zero pid % 2 ^ 32; held_at = or_zero held_at; ttl_ms = or_zero ttl })
parse_lock invalid_json = err invalid_data
parse_lock unreadable = err read_failed

abbrev pub some_info : IoResult LockInfo → IoResult (Option LockInfo)
some_info (ok i) = ok (some i)
some_info (err e) = err e

-- A missing file reads as `none`.
unfoldable pub read_lock : Option LockFile → IoResult (Option LockInfo)
unfolding parse_lock
read_lock none = ok none
read_lock (some f) = some_info (parse_lock f)

-- `write_lock` into a file that has just been created; a failed write leaves it empty.
unfoldable pub write_lock : Env → String → ℕ → Locks → IoResult AcquireResult × Locks
write_lock env name ttl s =
    if env.write_ok
    then (
      ok acquired,
      record s { files = insert name (value (some env.pid) (some env.now) (some ttl)) s.files },
    )
    else (err write_failed, record s { files = insert name invalid_json s.files })

pub data Check : Type 0 where
  held : (pid : ℕ) → Check
  free : Check
  failed : IoError → Check

-- Whether an exclusive create succeeds: never on a file that is there, and where the system call is
-- let through on one that is not.
unfoldable pub can_create : Bool → Option LockFile → Bool
can_create works none = works
can_create works (some f) = false

-- The test that `acquire` makes twice: the lock is younger than the caller's `ttl`.
unfoldable pub check_held : Env → ℕ → Option LockFile → Check
unfolding read_lock
check_held env ttl file = elim (read_lock file) [
  | err e ↦ failed e
  | ok none ↦ free
  | ok (some i) ↦ if ltb (env.now - i.held_at) ttl then held i.pid else free
]

-- `let _ = fs::rename(&path, &tombstone)`.
unfoldable pub bury : Env → String → Locks → Locks
bury env name s = elim (lookup name s.files) [
  | none ↦ s
  | some f ↦
      if env.rename_ok
      then record { files = erase name s.files; tombstones = insert name f s.tombstones }
      else s
]

abbrev pub holder : IoResult (Option LockInfo) → IoResult AcquireResult
holder (err e) = err e
holder (ok none) = ok (held_by 0)
holder (ok (some i)) = ok (held_by i.pid)

-- The second exclusive create; who fails reports who holds the lock, or the process 0 where nobody
-- does.
unfoldable pub create_again : Env → String → ℕ → Locks → IoResult AcquireResult × Locks
unfolding can_create
create_again env name ttl s =
    if can_create env.recreate_ok (lookup name s.files)
    then write_lock env name ttl s
    else (holder (read_lock (lookup name s.files)), s)

unfoldable pub take_over : Env → Rivals → String → ℕ → Locks → IoResult AcquireResult × Locks
take_over env rivals name ttl s0 =
    let s = rivals.before_reread s0 in
    elim (check_held env ttl (lookup name s.files)) [
      | failed e ↦ (err e, s)
      | held pid ↦ (ok (held_by pid), s)
      | free ↦
          create_again env name ttl (rivals.before_create (bury env name (rivals.before_rename s)))
    ]

unfoldable pub acquire : Env → Rivals → String → ℕ → Locks → IoResult AcquireResult × Locks
unfolding can_create
acquire env rivals name ttl s =
    if env.dir_ok
    then if can_create env.create_ok (lookup name s.files)
      then write_lock env name ttl s
      else elim (check_held env ttl (lookup name s.files)) [
        | failed e ↦ (err e, s)
        | held pid ↦ (ok (held_by pid), s)
        | free ↦ take_over env rivals name ttl s
      ]
    else (err create_dir_failed, s)

unfoldable pub release : Env → String → Locks → ReleaseOutcome × Locks
unfolding read_lock
release env name s = elim (read_lock (lookup name s.files)) [
  | err e ↦ (refused (io e), s)
  | ok none ↦ (refused (not_held name), s)
  | ok (some i) ↦
      if i.pid == env.pid
      then if env.remove_ok
        then (released, record s { files = erase name s.files })
        else (refused (io remove_failed), s)
      else (refused (foreign name i.pid), s)
]
