-- ===== src/Task/Semaphore/Releases.antt =====
-- Releasing, listing and clearing slots, and the queue of waiters, src/task/semaphore.rs.
use anser.Prelude.{
  ◌+◌, ◌++◌, [], String, ◌<◌, ◌∷◌, List, ℕ, ◌≡◌, refl, true, none, some, ◌⊎◌, inl, inr, arith, ◌≢◌,
  if◌then◌else◌, nat_key, nat_eqb_iff, Bool-cases, Option-cases,
}
use mathlib.Core.List.{append_assoc}
use anser.Prelude.Dict.{lookup, lookup-erase_self, lookup-erase_ne}
use anser.Task.Leases.{Slots, Env, Lease, SlotLease, lives, unlink, released, not_ours, read_lease}
use anser.Task.Semaphore.{
  enqueue, alien_tenant_active, acquire_pass, retain_others, acquire, Semaphore, release, drop_head,
  should_unlink,
}

-- A release is refused only to a live foreign tenant's slot, and then changes nothing. Otherwise the
-- slot's file goes if the directory allows it, no other slot changes, and the oldest waiter leaves
-- the queue.
pub release_outcome :
    (env : Env) (h : SlotLease) (s : Semaphore)
    → ((l : Lease) × (read_lease h.index s.slots ≡ some l)
        × (l.tenant ≢ env.pid)
        × (lives env l.tenant ≡ true)
        × (release env h s ≡ (not_ours, s)))
      ⊎ (((release env h s).0 ≡ released)
          × ((j : ℕ) → j ≢ h.index → lookup j (release env h s).1.slots ≡ lookup j s.slots)
          × (lookup h.index (release env h s).1.slots
              ≡ (if env.dir_ok then none else lookup h.index s.slots))
          × ((release env h s).1.queue ≡ drop_head s.queue))
unfolding release unlink
release_outcome env h s = elim (Bool-cases (should_unlink env (read_lease h.index s.slots))) [
  | inl yields ↦ rw yields (
      inr (
        refl,
        λ j ne. ground (arith, lookup-erase_ne j h.index s.slots ne),
        ground (arith, lookup-erase_self h.index s.slots),
        refl,
      ))
  | inr kept ↦ elim (Option-cases (read_lease h.index s.slots)) [
    | inl e ↦ absurd (ground arith)
    | inr (l, e) ↦
        inl (l, e, ground (arith, nat_eqb_iff l.tenant env.pid), ground arith, ground arith)
  ]
]

-- A handle is checked by the process only: where the slot of a handle holds any lease of this
-- process, and so after another of its tasks has claimed the slot that the first has released, a
-- release by the old handle removes that lease.
pub release_twice :
    (env : Env) (h : SlotLease) (s : Semaphore) (other : Lease)
    → env.dir_ok ≡ true
    → read_lease h.index s.slots ≡ some other
    → other.tenant ≡ env.pid
    → ((release env h s).0 ≡ released) × (lookup h.index (release env h s).1.slots ≡ none)
unfolding release unlink
release_twice env h s other d e own =
    ground (arith, lookup-erase_self h.index s.slots, nat_eqb_iff other.tenant env.pid)

-- The ids in the queue are older than the next one.
abbrev pub Older : ℕ → List ℕ → Type 0
Older n [] = Unit {0}
Older n (q ∷ qs) = (q < n) × Older n qs

retain_others-Older :
    (n : ℕ) (qs rest : List ℕ)
    → Older n qs
    → retain_others n (qs ++ rest) ≡ qs ++ retain_others n rest
unfolding retain_others
retain_others-Older n [] rest h = refl
retain_others-Older n (q ∷ qs) rest h = ground (arith, retain_others-Older n qs rest h.1)

-- The queue is not first come, first served across polls. A waiter whose poll interval ends while an
-- alien tenant still holds the slots, and during whose wait another task has queued up, ends behind
-- that task.
pub acquire_loses_place :
    (env : Env) (rival : Slots → Slots) (task_id : String) (s : Semaphore)
    → Older s.next_id s.queue
    → alien_tenant_active env s.max_slots s.slots ≡ true
    → (acquire env rival task_id (enqueue ∷ []) s).1.queue
      ≡ s.queue ++ (s.next_id + 1) ∷ (s.next_id + 2) ∷ []
unfolding acquire acquire_pass retain_others
acquire_loses_place env rival task_id s old aliens = ground (
  arith,
  append_assoc s.queue (s.next_id ∷ []) ((s.next_id + 1) ∷ []),
  append_assoc s.queue ((s.next_id + 1) ∷ []) ((s.next_id + 2) ∷ []),
  retain_others-Older s.next_id s.queue (s.next_id ∷ (s.next_id + 1) ∷ []) old,
)
