-- ===== src/Task/Semaphore.antt =====
-- src/task/semaphore.rs: the passes over the slots, the queue of waiters, releases and listings.
pub mod Claims
pub mod Passes
pub mod Status
pub mod Releases
pub mod Tenancy
use anser.Prelude.{
  ℕ, zero, suc, ◌+◌, String, Bool, true, false, not, ◌&&◌, ◌||◌, Option, none, some, List, [], ◌∷◌,
  ◌++◌, if◌then◌else◌, ◌==◌, nat_key, max, leb, length,
}
use anser.Prelude.Dict.{Dict, lookup, insert, erase}
use anser.Task.Liveness.{Kernel, pid_alive}
use anser.Task.Leases.{
  Env, Lease, ReleaseResult, SlotLease, Slots, claimed, lease_reclaimable, lives, not_ours,
  occupied, range, read_lease, reclaimed, released, try_claim, unlink,
}

-- The slot holds a lease whose tenant is alive.
abbrev pub live : Env → Option Lease → Bool
live env none = false
live env (some l) = not (lease_reclaimable env (some l))

abbrev pub alien : Env → ℕ → Option Lease → Bool
alien env me none = false
alien env me (some l) = not (lease_reclaimable env (some l)) && not (l.tenant == me)

unfoldable pub alien_among : Env → ℕ → List ℕ → Slots → Bool
alien_among env me [] s = false
alien_among env me (i ∷ is) s =
    let rest = alien_among env me is s in if alien env me (read_lease i s) then true else rest

unfoldable pub alien_tenant_active : Env → ℕ → Slots → Bool
unfolding alien_among range
alien_tenant_active env max_slots s = alien_among env env.pid (range max_slots 0) s

-- The loop over the slots in `acquire`.
unfoldable pub claim_first :
    Env → (Slots → Slots) → String → List ℕ → Slots → Option SlotLease × Slots
claim_first env rival task_id [] s = (none, s)
claim_first env rival task_id (i ∷ is) s =
    let (outcome, s') = try_claim env rival i task_id s in
    elim outcome [
      | claimed lease ↦ (some lease, s')
      | occupied ↦ claim_first env rival task_id is s'
      | reclaimed ↦ claim_first env rival task_id is s'
    ]

-- One turn of the loop of `acquire`, before it queues up.
unfoldable pub acquire_pass : Env → (Slots → Slots) → ℕ → String → Slots → Option SlotLease × Slots
unfolding range
acquire_pass env rival max_slots task_id s =
    if alien_tenant_active env max_slots s
    then (none, s)
    else claim_first env rival task_id (range max_slots 0) s

-- A process's semaphore over the shared directory: the ids of the tasks that wait in it, oldest
-- first, and the next id.
pub record Semaphore : Type 0 where
  pub max_slots : ℕ
  pub slots : Slots
  pub queue : List ℕ
  pub next_id : ℕ

unfoldable pub new : ℕ → Slots → Semaphore
new max_slots slots = record { max_slots = max max_slots 1; slots = slots; queue = []; next_id = 0 }

unfoldable pub retain_others : ℕ → List ℕ → List ℕ
retain_others id [] = []
retain_others id (q ∷ qs) = let rest = retain_others id qs in if q == id then rest else q ∷ rest

unfoldable pub enqueue : Semaphore → Semaphore
enqueue s = record s { queue = s.queue ++ s.next_id ∷ []; next_id = s.next_id + 1 }

unfoldable pub dequeue : ℕ → Semaphore → Semaphore
unfolding retain_others
dequeue id s = record s { queue = retain_others id s.queue }

-- `acquire`, over the turns that it waits: what happens to the semaphore during each, until it is
-- woken or its poll interval ends. `none` if it still waits at the end of these turns.
unfoldable pub acquire :
    Env
    → (Slots → Slots)
    → String
    → List (Semaphore → Semaphore)
    → Semaphore
    → Option SlotLease × Semaphore
unfolding enqueue dequeue
acquire env rival task_id [] s =
    let (lease, slots) = acquire_pass env rival s.max_slots task_id s.slots in
    elim lease [
      | some l ↦ (some l, record s { slots = slots })
      | none ↦ (none, enqueue (record s { slots = slots }))
    ]
acquire env rival task_id (turn ∷ turns) s =
    let (lease, slots) = acquire_pass env rival s.max_slots task_id s.slots in
    let later =
      acquire env rival task_id turns
        (dequeue s.next_id (turn (enqueue (record s { slots = slots })))) in
    elim lease [ some l ↦ (some l, record s { slots = slots }) | none ↦ later ]

abbrev pub should_unlink : Env → Option Lease → Bool
should_unlink env none = true
should_unlink env (some l) = l.tenant == env.pid || not (lives env l.tenant)

abbrev pub drop_head : List ℕ → List ℕ
drop_head [] = []
drop_head (q ∷ qs) = qs

-- The head of the queue is woken.
unfoldable pub release : Env → SlotLease → Semaphore → ReleaseResult × Semaphore
unfolding unlink
release env lease s =
    if should_unlink env (read_lease lease.index s.slots)
    then (released, record s { slots = unlink env lease.index s.slots; queue = drop_head s.queue })
    else (not_ours, s)

unfoldable pub list_among : Env → List ℕ → Slots → List Lease
list_among env [] s = []
list_among env (i ∷ is) s =
    let rest = list_among env is s in
    elim (read_lease i s) [
      | none ↦ rest
      | some l ↦ if lease_reclaimable env (some l) then rest else l ∷ rest
    ]

unfoldable pub list_slots : Env → ℕ → Slots → List Lease
unfolding list_among range
list_slots env max_slots s = list_among env (range max_slots 0) s

pub record SlotEntry : Type 0 where
  pub slot : ℕ
  pub lease : Lease

-- The three lists that `slot_status` fills in one loop.
pub record Holders : Type 0 where
  pub slots : List SlotEntry
  pub alien_holders : List SlotEntry
  pub same_holders : List SlotEntry

abbrev pub no_holders : Holders
no_holders = record { slots = []; alien_holders = []; same_holders = [] }

abbrev pub add_holder : ℕ → SlotEntry → Holders → Holders
add_holder tenant e h =
    if e.lease.tenant == tenant
    then record h { slots = h.slots ++ e ∷ []; same_holders = h.same_holders ++ e ∷ [] }
    else record h { slots = h.slots ++ e ∷ []; alien_holders = h.alien_holders ++ e ∷ [] }

abbrev pub visit : Env → ℕ → ℕ → Option Lease → Holders → Holders
visit env tenant i none h = h
visit env tenant i (some l) h =
    if lease_reclaimable env (some l)
    then h
    else add_holder tenant (record { slot = i; lease = l }) h

unfoldable pub collect : Env → ℕ → List ℕ → Slots → Holders → Holders
collect env tenant [] s h = h
collect env tenant (i ∷ is) s h = collect env tenant is s (visit env tenant i (read_lease i s) h)

pub record SlotStatus : Type 0 where
  pub holders : Holders
  pub total_capacity : ℕ
  pub is_alien_active : Bool
  pub is_same_active : Bool
  pub is_fully_occupied : Bool

abbrev pub nonempty : List SlotEntry → Bool
nonempty [] = false
nonempty (_ ∷ _) = true

unfoldable pub slot_status : Env → ℕ → ℕ → Slots → SlotStatus
unfolding collect range
slot_status env max_slots tenant s =
    let h = collect env tenant (range max_slots 0) s no_holders in
    record {
      holders = h;
      total_capacity = max_slots;
      is_alien_active = nonempty h.alien_holders;
      is_same_active = nonempty h.same_holders;
      is_fully_occupied = leb max_slots (length h.slots);
    }

unfoldable pub names : Slots → List ℕ
names [] = []
names ((i, _) ∷ s) = i ∷ names s

unfoldable pub clear_among : Env → List ℕ → Slots → Slots
clear_among env [] s = s
clear_among env (i ∷ is) s =
    clear_among env is (if lease_reclaimable env (read_lease i s) then unlink env i s else s)

-- Every file of the directory is looked at, also beyond `max_slots`.
unfoldable pub clear_reclaimable : Env → Slots → Slots
unfolding names clear_among
clear_reclaimable env s = clear_among env (names s) s
