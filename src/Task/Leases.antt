-- ===== src/Task/Leases.antt =====
-- src/task/semaphore.rs: leases, the files of the slots, and the claim of one slot.
use anser.Prelude.{
  ℕ, zero, suc, String, Bool, true, not, Option, none, some, List, [], ◌∷◌, if◌then◌else◌, nat_key,
}
use anser.Prelude.Dict.{Dict, lookup, insert, erase}
use anser.Task.Liveness.{Kernel, pid_alive}

pub record Lease : Type 0 where
  pub tenant : ℕ
  pub task_id : String
  pub at : ℕ
  pub hb : ℕ

-- The handle that `acquire` returns; its file is the slot's.
pub record SlotLease : Type 0 where
  pub index : ℕ
  pub tenant : ℕ
  pub task_id : String

pub data ReleaseResult : Type 0 where
  released not_ours : ReleaseResult

pub data ClaimOutcome : Type 0 where
  claimed : SlotLease → ClaimOutcome
  occupied reclaimed : ClaimOutcome

-- The files `slot_<i>.json`. One that does not parse, or is still empty, is `none`.
abbrev pub Slots : Type 0
Slots = Dict ℕ (Option Lease)

-- The calling process, and which system calls succeed. Where `dir_ok` is false no file can be
-- created, renamed or removed in the directory.
pub record Env : Type 0 where
  pub pid : ℕ
  pub now : ℕ
  pub kernel : Kernel
  pub dir_ok : Bool
  pub write_ok : Bool

abbrev pub lives : Env → ℕ → Bool
lives env tenant = pid_alive env.kernel env.pid tenant

-- `read_lease`: an absent file and one that does not parse are alike.
unfoldable pub read_lease : ℕ → Slots → Option Lease
read_lease i s = elim (lookup i s) [ none ↦ none | some file ↦ file ]

abbrev pub lease_reclaimable : Env → Option Lease → Bool
lease_reclaimable env none = true
lease_reclaimable env (some l) = not (lives env l.tenant)

abbrev pub handle : Env → ℕ → String → SlotLease
handle env i task_id = record { index = i; tenant = env.pid; task_id = task_id }

-- What the new file holds: the lease, or nothing if the write fails, which the code ignores.
abbrev pub written : Env → String → Option Lease
written env task_id =
    if env.write_ok
    then some (record { tenant = env.pid; task_id = task_id; at = env.now; hb = env.now })
    else none

-- `remove_file`, or the rename to a dead file and its removal.
unfoldable pub unlink : Env → ℕ → Slots → Slots
unlink env i s = if env.dir_ok then erase i s else s

-- The exclusive create, with the outcome if it fails.
unfoldable pub create_new : Env → ℕ → String → ClaimOutcome → Slots → ClaimOutcome × Slots
create_new env i task_id otherwise s = elim (lookup i s) [
  | some _ ↦ (otherwise, s)
  | none ↦
      if env.dir_ok
      then (claimed (handle env i task_id), insert i (written env task_id) s)
      else (otherwise, s)
]

-- `rival` is what other processes do between the removal of a dead lease and the second create.
unfoldable pub try_claim : Env → (Slots → Slots) → ℕ → String → Slots → ClaimOutcome × Slots
try_claim env rival i task_id s = elim (lookup i s) [
  | none ↦ create_new env i task_id occupied s
  | some file ↦
      if lease_reclaimable env file
      then create_new env i task_id reclaimed (rival (unlink env i s))
      else (occupied, s)
]

-- `0..n`, from a first index on.
unfoldable pub range : ℕ → ℕ → List ℕ
range zero i = []
range (suc n) i = i ∷ range n (suc i)
