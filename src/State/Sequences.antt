-- ===== src/State/Sequences.antt =====
-- src/state/mod.rs: calls on the lockfiles that follow each other, each at its end before the next one
-- starts.
use anser.Prelude.{
  ◌==◌, ◌⊎◌, Option, true, ℕ, ◌-◌, ◌%◌, ◌^◌, ◌<◌, ◌≡◌, ◌≢◌, refl, sym, ◌∙◌, ap, inl, inr, String,
  some, arith, string_key, Bool-cases,
}
use anser.Prelude.Dict.{lookup, lookup-erase_ne}
use mathlib.Core.Path.{subst}
use anser.State.{
  or_zero, Locks, LockFile, value, Env, Rivals, alone, ok, acquired, held_by, acquire, release,
}
use anser.State.Laws.{acquire_winner, acquire_young, acquire_frame, release_owner}

-- Calls on any locks while `p` holds the lock `name`: acquires, of that lock only while it is younger
-- than what the caller allows, and releases, of that lock only by a process with another pid.
pub data Calls (p : Env) (name : String) : Locks → Locks → Type 0 where
  over : {s : Locks} → Calls p name s s
  asks :
      {s u : Locks} (q : Env) (n : String) (ttl : ℕ)
      → (n ≡ name → q.now - p.now < ttl)
      → Calls p name (acquire q alone n ttl s).1 u
      → Calls p name s u
  gives_up :
      {s u : Locks} (q : Env) (n : String)
      → (n ≡ name → q.pid ≢ p.pid)
      → Calls p name (release q n s).1 u
      → Calls p name s u

same_name : (n name : String) → (n ≡ name) ⊎ (n ≢ name)
same_name n name = elim (Bool-cases (n == name)) [
  | inl same ↦ inl ((string_key.test_iff n name).0 same)
  | inr other ↦ inr (λ same. absurd (cc ((string_key.test_iff n name).1 same, other)))
]

abbrev pid_in : Option LockFile → ℕ
pid_in (some (value pid held_at ttl)) = or_zero pid
pid_in _ = 0

release_frame :
    (q : Env) (n name : String) (s : Locks)
    → name ≢ n
    → lookup name (release q n s).1.files ≡ lookup name s.files
release_frame q n name s ne = elim (release_owner q n s) [
  | inl (pid, held_at, ttl, e, mine, done) ↦ rw done (lookup-erase_ne name n s.files ne)
  | inr (e, same) ↦ rw same refl
]

module _ (p : Env) (name : String) (ttl : ℕ) (small : p.pid < 2 ^ 32) where
  -- The lockfile as the holder wrote it.
  abbrev Holds : Locks → Type 0
  Holds s = lookup name s.files ≡ some (value (some p.pid) (some p.now) (some ttl))

  acquire-Holds :
      (q : Env) (ttl' : ℕ) (s : Locks)
      → q.now - p.now < ttl'
      → Holds s
      → Holds (acquire q alone name ttl' s).1
  unfolding acquire
  acquire-Holds q ttl' s young h = elim (Bool-cases q.dir_ok) [
    | inl works ↦ rw (acquire_young q name ttl' alone s p.pid p.now ttl works h young) h
    | inr fails ↦ rw (fails, acquire) h
  ]

  release-Holds : (q : Env) (s : Locks) → q.pid ≢ p.pid → Holds s → Holds (release q name s).1
  release-Holds q s other h = elim (release_owner q name s) [
    | inl (pid, held_at, ttl', e, mine, done) ↦
        let at : or_zero pid ≡ p.pid = ap pid_in (sym e ∙ h) in
        absurd (other (sym mine ∙ ap (λ k. k % 2 ^ 32) at ∙ omega arith))
    | inr (e, same) ↦ rw same h
  ]

  Calls-Holds : (s u : Locks) → Calls p name s u → Holds s → Holds u
  Calls-Holds s u over h = h
  Calls-Holds s u (asks q n ttl' young later) h = Calls-Holds _ u later (elim (same_name n name) [
    | inl same ↦
        subst (λ k. Holds (acquire q alone k ttl' s).1) (sym same)
          (acquire-Holds q ttl' s (young same) h)
    | inr other ↦ acquire_frame q n ttl' name (λ e. other (sym e)) s ∙ h
  ])
  Calls-Holds s u (gives_up q n other later) h = Calls-Holds _ u later (elim (same_name n name) [
    | inl same ↦ subst (λ k. Holds (release q k s).1) (sym same) (release-Holds q s (other same) h)
    | inr away ↦ release_frame q n name s (λ e. away (sym e)) ∙ h
  ])

-- A lock that was won is kept through any sequence of calls, none of which starts before the one
-- before it has ended: acquires of any lock, those of this one by callers for whom it is still
-- younger than the time to live that they name, and releases, those of this one by other processes.
-- After them a caller for whom the lock is still young, and for whom the directory can be made, is
-- told that the winner holds it, and changes nothing.
pub acquire_exclusive :
    (p q : Env) (rivals rivals' : Rivals) (name : String) (ttl ttl' : ℕ) (s u : Locks)
    → p.pid < 2 ^ 32
    → q.dir_ok ≡ true
    → q.now - p.now < ttl'
    → (acquire p rivals name ttl s).0 ≡ ok acquired
    → Calls p name (acquire p rivals name ttl s).1 u
    → acquire q rivals' name ttl' u ≡ (ok (held_by p.pid), u)
acquire_exclusive p q rivals rivals' name ttl ttl' s u small d young h between =
    let kept = Calls-Holds p name ttl small _ u between (acquire_winner p name ttl rivals s h) in
    ground (arith, acquire_young q name ttl' rivals' u p.pid p.now ttl d kept young)
