-- ===== src/Task/Semaphore/Tenancy.antt =====
-- The tenants of the slots, over steps of the processes that share src/task/semaphore.rs.
use anser.Prelude.{
  ℕ, suc, ◌≡◌, refl, String, Bool, true, false, Option, some, inl, inr, List, [], ◌∷◌, arith, ◌≢◌,
  ◌<◌, nat_key, Bool-cases, Key-cases, sym, ◌∙◌, ap,
}
use anser.Prelude.Dict.{lookup, insert, lookup-erase}
use anser.Task.Leases.{
  Env, Slots, Lease, try_claim, lives, lease_reclaimable, unlink, create_new, written, read_lease,
  range,
}
use anser.Task.Semaphore.{
  alien_among, alien_tenant_active, claim_first, acquire_pass, clear_reclaimable, clear_among,
  names,
}
use anser.Task.Semaphore.Passes.{range-Among, acquire_pass-Pass, alien_among_own}

-- The processes that are alive, and the shared directory.
pub record World : Type 0 where
  pub alive : ℕ → Bool
  pub slots : Slots

-- All live leases below `max_slots` have one tenant.
abbrev pub SingleTenant : ℕ → World → Type 0
SingleTenant n w =
    (i j : ℕ) (l m : Lease)
    → i < n
    → j < n
    → read_lease i w.slots ≡ some l
    → read_lease j w.slots ≡ some m
    → w.alive l.tenant ≡ true
    → w.alive m.tenant ≡ true
    → l.tenant ≡ m.tenant

-- A process that is alive sees which processes are.
abbrev pub Sees : Env → World → Type 0
Sees env w = ((t : ℕ) → lives env t ≡ w.alive t) × (w.alive env.pid ≡ true)

-- A slot holds what it held, or nothing.
abbrev pub Fewer : Slots → Slots → Type 0
Fewer s t = (i : ℕ) (l : Lease) → read_lease i t ≡ some l → read_lease i s ≡ some l

pub data Step (n : ℕ) (w : World) : World → Type 0 where
  -- A whole pass of `acquire`, with nobody in between.
  passes :
      (env : Env) (task_id : String)
      → Sees env w
      → Step n w (record w { slots = (acquire_pass env (λ t. t) n task_id w.slots).1 })
  -- `release`, and the clearing at boot.
  releases : (env : Env) (i : ℕ) → Step n w (record w { slots = unlink env i w.slots })
  clears : (env : Env) → Step n w (record w { slots = clear_reclaimable env w.slots })
  -- Processes end; one that starts has a pid that no lease names.
  dies :
      (alive : ℕ → Bool)
      → ((t : ℕ) → alive t ≡ true → w.alive t ≡ true)
      → Step n w (record w { alive = alive })
  starts :
      (alive : ℕ → Bool) (pid : ℕ)
      → ((t : ℕ) → t ≢ pid → alive t ≡ true → w.alive t ≡ true)
      → ((i : ℕ) (l : Lease) → read_lease i w.slots ≡ some l → l.tenant ≢ pid)
      → Step n w (record w { alive = alive })

pub data Reach (n : ℕ) (w : World) : World → Type 0 where
  here : Reach n w w
  next : {v u : World} → Reach n w v → Step n v u → Reach n w u

read_lease_of :
    (i : ℕ) (s : Slots) (file : Option Lease) → lookup i s ≡ some file → read_lease i s ≡ file
unfolding read_lease
read_lease_of i s file e = rw (e, read_lease)

read_lease_cong : (i : ℕ) (s t : Slots) → lookup i s ≡ lookup i t → read_lease i s ≡ read_lease i t
unfolding read_lease
read_lease_cong i s t e = rw (e, read_lease)

-- After a pass each live lease below `max_slots` is the caller's own, or nothing has changed.
acquire_pass-own :
    (env : Env) (task_id : String) (n : ℕ) (w : World)
    → Sees env w
    → alien_tenant_active env n w.slots ≡ false
    → (i : ℕ) (l : Lease) → i < n
    → read_lease i (acquire_pass env (λ t. t) n task_id w.slots).1 ≡ some l
    → w.alive l.tenant ≡ true
    → l.tenant ≡ env.pid
unfolding alien_tenant_active
acquire_pass-own env task_id n w sees alone i l below e a =
    elim (acquire_pass-Pass env task_id n w.slots).0 [
      | inl (_, same) ↦ before i l below (rw same at e) a
      | inr (k, _, _, _, wrote, others) ↦ elim (Key-cases i k) [
        | inl at ↦
            ground
              (arith, ap (λ k. read_lease k t) at, read_lease_of k t (written env task_id) wrote)
        | inr ne ↦ before i l below (sym (read_lease_cong i t w.slots (others i ne)) ∙ e) a
      ]
    ]
  where
    t : Slots
    t = (acquire_pass env (λ t. t) n task_id w.slots).1

    before :
        (j : ℕ) (m : Lease)
        → j < n
        → read_lease j w.slots ≡ some m
        → w.alive m.tenant ≡ true
        → m.tenant ≡ env.pid
    before j m below e a =
        alien_among_own env env.pid (range n 0) w.slots j m alone
          (range-Among n 0 j (omega arith) (omega arith)) e (sees.0 m.tenant ∙ a)

unlink-Fewer : (env : Env) (i : ℕ) (s : Slots) → Fewer s (unlink env i s)
unfolding unlink read_lease
unlink-Fewer env i s j l e = ground (arith, lookup-erase j i s)

clear_among-Fewer : (env : Env) (is : List ℕ) (s : Slots) → Fewer s (clear_among env is s)
unfolding clear_among
clear_among-Fewer env [] s j l e = e
clear_among-Fewer env (i ∷ is) s j l e =
    elim (Bool-cases (lease_reclaimable env (read_lease i s))) [
      | inl dead ↦
          unlink-Fewer env i s j l (clear_among-Fewer env is (unlink env i s) j l (rw dead at e))
      | inr kept ↦ clear_among-Fewer env is s j l (rw kept at e)
    ]

acquire_pass_blocked :
    (env : Env) (task_id : String) (n : ℕ) (s : Slots)
    → alien_tenant_active env n s ≡ true
    → (acquire_pass env (λ t. t) n task_id s).1 ≡ s
unfolding acquire_pass
acquire_pass_blocked env task_id n s aliens = rw aliens

Fewer-SingleTenant :
    (n : ℕ) (w : World) (t : Slots)
    → Fewer w.slots t
    → SingleTenant n w
    → SingleTenant n (record w { slots = t })
Fewer-SingleTenant n w t fewer single i j l m hi hj e e' =
    single i j l m hi hj (fewer i l e) (fewer j m e')

Step-SingleTenant : (n : ℕ) {w v : World} → Step n w v → SingleTenant n w → SingleTenant n v
unfolding clear_reclaimable
Step-SingleTenant n {w} (passes env task_id sees) single =
    elim (Bool-cases (alien_tenant_active env n w.slots)) [
      | inl aliens ↦
          Fewer-SingleTenant n w _
            (λ i l e. ground (arith, acquire_pass_blocked env task_id n w.slots aliens)) single
      | inr alone ↦ λ i j l m hi hj e e' a a'.
          acquire_pass-own env task_id n w sees alone i l hi e a
          ∙ sym (acquire_pass-own env task_id n w sees alone j m hj e' a')
    ]
Step-SingleTenant n {w} (releases env i) single =
    Fewer-SingleTenant n w _ (unlink-Fewer env i w.slots) single
Step-SingleTenant n {w} (clears env) single =
    Fewer-SingleTenant n w _ (clear_among-Fewer env (names w.slots) w.slots) single
Step-SingleTenant n (dies alive fewer) single =
    λ i j l m hi hj e e' a a'. single i j l m hi hj e e' (fewer l.tenant a) (fewer m.tenant a')
Step-SingleTenant n (starts alive pid old fresh) single = λ i j l m hi hj e e' a a'.
    single i j l m hi hj e e' (old l.tenant (fresh i l e) a) (old m.tenant (fresh j m e') a')

-- From a directory with one live tenant, none included, every sequence of whole passes, releases,
-- clearings, ends of processes, and starts of processes whose pid no lease names at that time leads
-- to one with at most one live tenant. A start under the pid of a lease that its owner left behind is
-- no such step.
pub Reach-SingleTenant : (n : ℕ) {w v : World} → SingleTenant n w → Reach n w v → SingleTenant n v
Reach-SingleTenant n single here = single
Reach-SingleTenant n single (next r st) = Step-SingleTenant n st (Reach-SingleTenant n single r)

-- Such a start breaks it: where the leases of two slots name different tenants and one of the two is
-- dead, the kernel only has to give its pid to a new process, and both leases are live.
pub recycled_pid :
    (n i j : ℕ) (l m : Lease) (w : World) (alive : ℕ → Bool)
    → i < n
    → j < n
    → read_lease i w.slots ≡ some l
    → read_lease j w.slots ≡ some m
    → l.tenant ≢ m.tenant
    → alive l.tenant ≡ true
    → alive m.tenant ≡ true
    → ¬ SingleTenant n (record w { alive = alive })
recycled_pid n i j l m w alive hi hj e e' ne a a' single = ne (single i j l m hi hj e e' a a')

alien_among_empty : (env : Env) (me : ℕ) (is : List ℕ) → alien_among env me is [] ≡ false
unfolding alien_among read_lease lookup
alien_among_empty env me [] = refl
alien_among_empty env me (i ∷ is) = alien_among_empty env me is

abbrev lease_of : Env → String → Lease
lease_of env task_id = record { tenant = env.pid; task_id = task_id; at = env.now; hb = env.now }

-- The first claim in an empty directory takes slot 0, and the next one, past a live lease, slot 1.
claim_first_empty :
    (p : Env) (task : String) (n : ℕ)
    → p.dir_ok ≡ true
    → p.write_ok ≡ true
    → (claim_first p (λ t. t) task (range (suc n) 0) []).1 ≡ (0, some (lease_of p task)) ∷ []
unfolding claim_first range try_claim create_new lookup insert
claim_first_empty p task n d w = ground arith

claim_first_second :
    (q : Env) (task : String) (n : ℕ) (l : Lease)
    → lives q l.tenant ≡ true
    → q.dir_ok ≡ true
    → q.write_ok ≡ true
    → (claim_first q (λ t. t) task (range (suc (suc n)) 0) ((0, some l) ∷ [])).1
      ≡ (0, some l) ∷ (1, some (lease_of q task)) ∷ []
unfolding claim_first range try_claim create_new lookup insert
claim_first_second q task n l alive d w = ground arith

-- The check for other tenants and the claim are two steps. Where two processes both check an empty
-- directory before either claims, both get a slot, and the directory holds the leases of two live
-- tenants.
pub passes_overlap :
    (p q : Env) (task task' : String) (n : ℕ) (alive : ℕ → Bool)
    → p.pid ≢ q.pid
    → alive p.pid ≡ true
    → alive q.pid ≡ true
    → lives q p.pid ≡ true
    → p.dir_ok ≡ true
    → p.write_ok ≡ true
    → q.dir_ok ≡ true
    → q.write_ok ≡ true
    → let s = (claim_first p (λ t. t) task (range (suc (suc n)) 0) []).1 in
      let t = (claim_first q (λ t. t) task' (range (suc (suc n)) 0) s).1 in
      (alien_tenant_active p (suc (suc n)) [] ≡ false)
      × (alien_tenant_active q (suc (suc n)) [] ≡ false)
      × ¬ SingleTenant (suc (suc n)) (record { alive = alive; slots = t })
unfolding alien_tenant_active read_lease lookup
passes_overlap p q task task' n alive ne pa qa qp pd pw qd qw = (
  alien_among_empty p p.pid (range (suc (suc n)) 0),
  alien_among_empty q q.pid (range (suc (suc n)) 0),
  rw
      (
        claim_first_empty p task (suc n) pd pw,
        claim_first_second q task' n (lease_of p task) qp qd qw,
      )
      (λ single. ne (
        single 0 1 (lease_of p task) (lease_of q task') (omega arith) (omega arith) refl refl pa
          qa)),
)
