-- ===== src/Examples/Slots.antt =====
-- The theorems on src/task/semaphore.rs at two slots.
use anser.Prelude.{
  ℕ, ◌⊎◌, ◌≡◌, refl, Bool, true, false, ◌||◌, none, some, [], ◌∷◌, arith, nat_key, ◌==◌,
}
use anser.Prelude.Dict.{lookup}
use anser.Task.Liveness.{Kernel, pid_alive}
use anser.Task.Leases.{Env, Slots, Lease, lives, read_lease, range}
use anser.Task.Semaphore.{Semaphore, acquire_pass}
use anser.Task.Semaphore.Passes.{Pass, OwnOnly, acquire_pass-Pass}
use anser.Task.Semaphore.Tenancy.{World, SingleTenant, Sees, passes, here, next, Reach-SingleTenant}

abbrev alive : ℕ → Bool
alive pid = pid == 10 || pid == 20

abbrev kernel : Kernel
kernel = record { kill_ok = alive; eperm = λ pid. false; status_lines = λ pid. none }

abbrev first : Env
first = record { pid = 10; now = 1000; kernel = kernel; dir_ok = true; write_ok = true }

abbrev second : Env
second = record first { pid = 20; now = 1100 }

abbrev own : Lease
own = record { tenant = 10; task_id = "task_1"; at = 900; hb = 900 }

abbrev theirs : Lease
theirs = record { tenant = 20; task_id = "task_9"; at = 800; hb = 800 }

-- Slot 0 is the first process's own, slot 1 that of a process that has died.
abbrev slots : Slots
slots = (0, some own) ∷ (1, some (record theirs { tenant = 7 })) ∷ []

abbrev world : World
world = record { alive = alive; slots = [] }

world-SingleTenant : SingleTenant 2 world
unfolding read_lease lookup
world-SingleTenant i j l m hi hj e e' a a' = absurd (ground (arith, e))

first-Sees : Sees first world
unfolding pid_alive
first-Sees = (λ t. ground arith, refl)

Reach-SingleTenant_example :
    SingleTenant 2 (record world { slots = (acquire_pass first (λ t. t) 2 "task_1" []).1 })
Reach-SingleTenant_example =
    Reach-SingleTenant 2 world-SingleTenant (next here (passes first "task_1" first-Sees))

first_alive : lives second 10 ≡ true
unfolding pid_alive
first_alive = refl

acquire_pass-Pass_example :
    Pass first "task_2" (range 2 0) slots (acquire_pass first (λ t. t) 2 "task_2" slots)
    × ((acquire_pass first (λ t. t) 2 "task_2" slots ≡ (none, slots))
        ⊎ OwnOnly first (range 2 0) slots)
acquire_pass-Pass_example = acquire_pass-Pass first "task_2" 2 slots

abbrev semaphore : Semaphore
semaphore = record { max_slots = 2; slots = slots; queue = 0 ∷ 1 ∷ []; next_id = 2 }
