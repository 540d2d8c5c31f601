-- ===== src/Task/Semaphore/Claims.antt =====
-- Claiming and releasing one slot, src/task/semaphore.rs.
use anser.Prelude.{ℕ, ◌≡◌, Bool, false, String, true, none, some, ◌⊎◌, arith, ◌≢◌, nat_key}
use anser.Prelude.Dict.{
  lookup, erase, lookup-insert_self, lookup-insert_ne, lookup-erase_self, lookup-erase_ne,
}
use anser.Task.Leases.{
  Env, read_lease, Slots, Lease, ClaimOutcome, claimed, occupied, reclaimed, try_claim, create_new,
  unlink, lives, written, handle,
}
use anser.Task.Semaphore.{live}

module _ (env : Env) (i : ℕ) (task_id : String) where
  -- The lease of a live tenant is never taken, its own process's least of all: the claim is refused
  -- and changes nothing.
  pub try_claim_live :
      (rival : Slots → Slots) (s : Slots) (l : Lease)
      → lookup i s ≡ some (some l)
      → lives env l.tenant ≡ true
      → try_claim env rival i task_id s ≡ (occupied, s)
  unfolding try_claim
  try_claim_live rival s l e alive = ground arith

  -- A file that holds no lease yet counts as a leftover of a crash: a claim takes it, although the
  -- process that has just created it may be about to write its lease.
  pub try_claim_unwritten :
      (s : Slots)
      → env.dir_ok ≡ true
      → lookup i s ≡ some none
      → ((try_claim env (λ t. t) i task_id s).0 ≡ claimed (handle env i task_id))
        × (lookup i (try_claim env (λ t. t) i task_id s).1 ≡ some (written env task_id))
  unfolding try_claim create_new unlink
  try_claim_unwritten s d e =
      ground (arith, lookup-erase_self i s, lookup-insert_self i (written env task_id) (erase i s))

  -- What one claim that nobody disturbs does to a slot.
  pub try_claim_elsewhere :
      (s : Slots) (j : ℕ) → j ≢ i → lookup j (try_claim env (λ t. t) i task_id s).1 ≡ lookup j s
  unfolding try_claim create_new unlink
  try_claim_elsewhere s j ne = ground (
    arith,
    lookup-erase_ne j i s ne,
    lookup-insert_ne j i (written env task_id) s ne,
    lookup-insert_ne j i (written env task_id) (erase i s) ne,
  )

abbrev pub not_claimed : ClaimOutcome → Bool
not_claimed (claimed _) = false
not_claimed occupied = true
not_claimed reclaimed = true

-- A claim that nobody disturbs either fails and changes nothing, or takes a slot that held no live
-- lease.
abbrev pub Claims : Env → ℕ → String → Slots → ClaimOutcome × Slots → Type 0
Claims env i task_id s res =
    ((not_claimed res.0 ≡ true) × (res.1 ≡ s))
    ⊎ ((res.0 ≡ claimed (handle env i task_id))
        × (live env (read_lease i s) ≡ false)
        × (lookup i res.1 ≡ some (written env task_id)))

module _ (env : Env) (i : ℕ) (task_id : String) where
  pub try_claim-Claims : (s : Slots) → Claims env i task_id s (try_claim env (λ t. t) i task_id s)
  unfolding try_claim create_new unlink read_lease
  try_claim-Claims s = ground (
    arith,
    lookup-erase_self i s,
    lookup-insert_self i (written env task_id) s,
    lookup-insert_self i (written env task_id) (erase i s),
  )

  -- A slot without a live lease is claimed, if the directory can be written.
  pub try_claim_free :
      (s : Slots)
      → env.dir_ok ≡ true
      → live env (read_lease i s) ≡ false
      → (try_claim env (λ t. t) i task_id s).0 ≡ claimed (handle env i task_id)
  unfolding try_claim create_new unlink read_lease
  try_claim_free s d free = ground (arith, lookup-erase_self i s)
