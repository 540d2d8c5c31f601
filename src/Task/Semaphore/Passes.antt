-- ===== src/Task/Semaphore/Passes.antt =====
-- One pass of `acquire` over the slots, src/task/semaphore.rs.
use anser.Prelude.{
  ℕ, zero, suc, ◌≡◌, refl, String, true, false, Option, none, some, ◌⊎◌, inl, inr, List, [], ◌∷◌,
  arith, ◌≢◌, ◌+◌, ◌≤◌, ◌<◌, nat_key, nat_eqb_iff, Bool-cases, Key-cases, ap,
}
use anser.Prelude.Dict.{lookup}
use anser.Task.Leases.{
  Env, Slots, Lease, SlotLease, try_claim, lives, written, handle, read_lease, range,
}
use anser.Task.Semaphore.{live, alien_among, alien_tenant_active, claim_first, acquire_pass}
use anser.Task.Semaphore.Claims.{try_claim-Claims, try_claim_elsewhere, not_claimed}

-- A list of slots holds an index.
abbrev pub Among : ℕ → List ℕ → Type 0
Among i [] = ⊥
Among i (j ∷ js) = (i ≡ j) ⊎ Among i js

pub range-Among : (n i j : ℕ) → i ≤ j → j < i + n → Among j (range n i)
unfolding range
range-Among zero i j lo hi = absurd (omega arith)
range-Among (suc n) i j lo hi = elim (Key-cases j i) [
  | inl e ↦ inl e
  | inr ne ↦ inr (range-Among n (suc i) j (omega arith) (omega arith))
]

pub Among-range : (n i j : ℕ) → Among j (range n i) → (i ≤ j) × (j < i + n)
unfolding range
Among-range zero i j m = elim m [ ]
Among-range (suc n) i j (inl e) = omega arith
Among-range (suc n) i j (inr m) = let h = Among-range n (suc i) j m in omega arith

-- With no alien tenant among the slots, each live lease is the caller's own.
pub alien_among_own :
    (env : Env) (me : ℕ) (is : List ℕ) (s : Slots) (j : ℕ) (l : Lease)
    → alien_among env me is s ≡ false
    → Among j is
    → read_lease j s ≡ some l
    → lives env l.tenant ≡ true
    → l.tenant ≡ me
unfolding alien_among
alien_among_own env me [] s j l h m e a = elim m [ ]
alien_among_own env me (i ∷ is) s j l h (inl at) e a =
    ground (arith, ap (λ k. read_lease k s) at, nat_eqb_iff l.tenant me)
alien_among_own env me (i ∷ is) s j l h (inr m) e a =
    alien_among_own env me is s j l (ground arith) m e a

-- What a pass that nobody disturbs answers: nothing, and nothing has changed; or the handle of a
-- slot among those tried, which held no live lease and now holds the caller's, with every other
-- slot as it was.
abbrev pub Pass : Env → String → List ℕ → Slots → Option SlotLease × Slots → Type 0
Pass env task_id is s res =
    ((res.0 ≡ none) × (res.1 ≡ s))
    ⊎ ((i : ℕ) × Among i is
        × (res.0 ≡ some (handle env i task_id))
        × (live env (read_lease i s) ≡ false)
        × (lookup i res.1 ≡ some (written env task_id))
        × ((j : ℕ) → j ≢ i → lookup j res.1 ≡ lookup j s))

-- Each live lease among the slots is the caller's own.
abbrev pub OwnOnly : Env → List ℕ → Slots → Type 0
OwnOnly env is s =
    (j : ℕ) (l : Lease)
    → Among j is
    → read_lease j s ≡ some l
    → lives env l.tenant ≡ true
    → l.tenant ≡ env.pid

module _ (env : Env) (task_id : String) where
  claim_first_skip :
      (i : ℕ) (is : List ℕ) (s : Slots)
      → not_claimed (try_claim env (λ t. t) i task_id s).0 ≡ true
      → (try_claim env (λ t. t) i task_id s).1 ≡ s
      → claim_first env (λ t. t) task_id (i ∷ is) s ≡ claim_first env (λ t. t) task_id is s
  unfolding claim_first
  claim_first_skip i is s failed same = ground arith

  widen :
      (i : ℕ) (is : List ℕ) (s : Slots) (res : Option SlotLease × Slots)
      → Pass env task_id is s res
      → Pass env task_id (i ∷ is) s res
  widen i is s res (inl h) = inl h
  widen i is s res (inr (j, m, h0, h1, h2, h3)) = inr (j, inr m, h0, h1, h2, h3)

  claim_first-Pass :
      (is : List ℕ) (s : Slots) → Pass env task_id is s (claim_first env (λ t. t) task_id is s)
  unfolding claim_first
  claim_first-Pass [] s = inl (refl, refl)
  claim_first-Pass (i ∷ is) s = elim (try_claim-Claims env i task_id s) [
    | inr (got, free, wrote) ↦ inr (
      i,
      inl refl,
      rw (got, claim_first),
      free,
      rw (got, claim_first) wrote,
      λ j ne. rw (got, claim_first) (try_claim_elsewhere env i task_id s j ne),
    )
    | inl (failed, same) ↦
        rw (claim_first_skip i is s failed same) (widen i is s _ (claim_first-Pass is s))
  ]

  -- A pass that nobody disturbs takes at most one slot, below `max_slots`, that held no live lease,
  -- and leaves every other slot alone. Either it takes none and changes nothing, or each live lease
  -- below `max_slots` was the caller's own before it: another tenant that is alive keeps it out.
  pub acquire_pass-Pass :
      (max_slots : ℕ) (s : Slots)
      → Pass env task_id (range max_slots 0) s (acquire_pass env (λ t. t) max_slots task_id s)
        × ((acquire_pass env (λ t. t) max_slots task_id s ≡ (none, s))
            ⊎ OwnOnly env (range max_slots 0) s)
  unfolding acquire_pass alien_tenant_active
  acquire_pass-Pass max_slots s = elim (Bool-cases (alien_tenant_active env max_slots s)) [
    | inl aliens ↦ rw aliens (inl (refl, refl), inl refl)
    | inr none_there ↦ rw none_there (
      claim_first-Pass (range max_slots 0) s,
      inr (λ j l m e a. alien_among_own env env.pid (range max_slots 0) s j l none_there m e a),
    )
  ]
