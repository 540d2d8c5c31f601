-- ===== src/State/Laws.antt =====
-- Laws of one call on a lockfile, src/state/mod.rs.
use anser.Prelude.{
  ℕ, ◌-◌, ◌%◌, ◌^◌, ◌<◌, ◌≤◌, ◌≡◌, ◌≢◌, ◌⊎◌, inl, inr, String, true, some, Option, arith,
}
use anser.Prelude.{string_key, nat_key, ◌==◌, nat_eqb_iff, Bool-cases, Option-cases}
use anser.Prelude.Dict.{
  lookup, erase, lookup-insert_self, lookup-insert_ne, lookup-erase_ne, lookup-erase_self,
}
use anser.State.{
  can_create, Locks, LockFile, value, invalid_json, unreadable, Env, Rivals, alone, ok, err,
  acquired, held_by, invalid_data, acquire, take_over, create_again, write_lock, bury, check_held,
  release, released, refused, not_held, foreign, io, remove_failed, read_failed, or_zero, read_lock,
  ReleaseError,
}

module _ (env : Env) (name : String) (ttl : ℕ) where
  abbrev ours : LockFile
  ours = value (some env.pid) (some env.now) (some ttl)

  write_lock_winner :
      (s : Locks)
      → (write_lock env name ttl s).0 ≡ ok acquired
      → lookup name (write_lock env name ttl s).1.files ≡ some ours
  unfolding write_lock
  write_lock_winner s h = ground (arith, lookup-insert_self name ours s.files)

  create_again_winner :
      (s : Locks)
      → (create_again env name ttl s).0 ≡ ok acquired
      → lookup name (create_again env name ttl s).1.files ≡ some ours
  unfolding create_again
  create_again_winner s h = ground (arith, write_lock_winner s)

  take_over_winner :
      (rivals : Rivals) (s : Locks)
      → (take_over env rivals name ttl s).0 ≡ ok acquired
      → lookup name (take_over env rivals name ttl s).1.files ≡ some ours
  unfolding take_over
  take_over_winner rivals s h = ground (
    arith,
    create_again_winner
        (rivals.before_create (bury env name (rivals.before_rename (rivals.before_reread s)))),
  )

  -- Whoever wins, the lockfile then names the winner, its clock and its time to live, whatever other
  -- processes did meanwhile.
  pub acquire_winner :
      (rivals : Rivals) (s : Locks)
      → (acquire env rivals name ttl s).0 ≡ ok acquired
      → lookup name (acquire env rivals name ttl s).1.files ≡ some ours
  unfolding acquire
  acquire_winner rivals s h = ground (arith, write_lock_winner s, take_over_winner rivals s)

  -- A lock that is younger than the caller's time to live is left alone, and its holder reported.
  pub acquire_young :
      (rivals : Rivals) (s : Locks) (pid held_at stored : ℕ)
      → env.dir_ok ≡ true
      → lookup name s.files ≡ some (value (some pid) (some held_at) (some stored))
      → env.now - held_at < ttl
      → acquire env rivals name ttl s ≡ (ok (held_by (pid % 2 ^ 32)), s)
  unfolding acquire check_held can_create
  acquire_young rivals s pid held_at stored d e h = ground arith

  -- A lockfile that does not parse is never reclaimed: each call fails and changes nothing, however
  -- old the file is.
  pub acquire_unparsable :
      (rivals : Rivals) (s : Locks)
      → env.dir_ok ≡ true
      → lookup name s.files ≡ some invalid_json
      → acquire env rivals name ttl s ≡ (err invalid_data, s)
  unfolding acquire check_held read_lock can_create
  acquire_unparsable rivals s d e = ground arith

  -- Once a lock is as old as the caller's time to live, a caller that nobody disturbs takes it over,
  -- whoever holds it and whatever time to live the holder asked for; the old file is the tombstone.
  pub acquire_stale :
      (s : Locks) (pid held_at stored : ℕ)
      → env.dir_ok ≡ true
      → env.write_ok ≡ true
      → env.rename_ok ≡ true
      → env.recreate_ok ≡ true
      → lookup name s.files ≡ some (value (some pid) (some held_at) (some stored))
      → ttl ≤ env.now - held_at
      → ((acquire env alone name ttl s).0 ≡ ok acquired)
        × (lookup name (acquire env alone name ttl s).1.files ≡ some ours)
        × (lookup name (acquire env alone name ttl s).1.tombstones
            ≡ some (value (some pid) (some held_at) (some stored)))
  unfolding acquire take_over check_held read_lock bury create_again write_lock can_create
  acquire_stale s pid held_at stored d w r c e h = ground (
    arith,
    lookup-erase_self name s.files,
    lookup-insert_self name ours (erase name s.files),
    lookup-insert_self name (value (some pid) (some held_at) (some stored)) s.tombstones,
  )

  module _ (other : String) (ne : other ≢ name) where
    write_lock_frame :
        (s : Locks) → lookup other (write_lock env name ttl s).1.files ≡ lookup other s.files
    unfolding write_lock
    write_lock_frame s = ground (
      arith,
      lookup-insert_ne other name ours s.files ne,
      lookup-insert_ne other name invalid_json s.files ne,
    )

    bury_frame : (s : Locks) → lookup other (bury env name s).files ≡ lookup other s.files
    unfolding bury
    bury_frame s = ground (arith, lookup-erase_ne other name s.files ne)

    create_again_frame :
        (s : Locks) → lookup other (create_again env name ttl s).1.files ≡ lookup other s.files
    unfolding create_again
    create_again_frame s = ground (arith, write_lock_frame s)

    -- A call that nobody disturbs changes no other lock.
    pub acquire_frame :
        (s : Locks) → lookup other (acquire env alone name ttl s).1.files ≡ lookup other s.files
    unfolding acquire take_over
    acquire_frame s =
        ground (arith, write_lock_frame s, create_again_frame (bury env name s), bury_frame s)

-- A release removes the lockfile only if it parses and names the caller; any other answer leaves
-- the directory as it was.
pub release_owner :
    (env : Env) (name : String) (s : Locks)
    → ((pid held_at ttl : Option ℕ) × (lookup name s.files ≡ some (value pid held_at ttl))
        × (or_zero pid % 2 ^ 32 ≡ env.pid)
        × (release env name s ≡ (released, record s { files = erase name s.files })))
      ⊎ ((e : ReleaseError) × (release env name s ≡ (refused e, s)))
unfolding release read_lock
release_owner env name s = elim (Option-cases (lookup name s.files)) [
  | inl e ↦ inr (not_held name, ground arith)
  | inr (invalid_json, e) ↦ inr (io invalid_data, ground arith)
  | inr (unreadable, e) ↦ inr (io read_failed, ground arith)
  | inr (value pid held_at ttl, e) ↦ elim (Bool-cases (or_zero pid % 2 ^ 32 == env.pid)) [
    | inl mine ↦ elim (Bool-cases env.remove_ok) [
      | inl works ↦ inl (pid, held_at, ttl, e, (nat_eqb_iff _ _).0 mine, ground arith)
      | inr fails ↦ inr (io remove_failed, ground arith)
    ]
    | inr other ↦ inr (foreign name (or_zero pid % 2 ^ 32), ground arith)
  ]
]

-- A lock that was won can be released once by its winner, and only once.
pub release-acquire :
    (env : Env) (rivals : Rivals) (name : String) (ttl : ℕ) (s : Locks)
    → env.pid < 2 ^ 32
    → env.remove_ok ≡ true
    → (acquire env rivals name ttl s).0 ≡ ok acquired
    → let t = (acquire env rivals name ttl s).1 in
      ((release env name t).0 ≡ released)
      × ((release env name (release env name t).1).0 ≡ refused (not_held name))
unfolding release read_lock
release-acquire env rivals name ttl s small works h = ground (
  arith,
  acquire_winner env name ttl rivals s h,
  lookup-erase_self name (acquire env rivals name ttl s).1.files,
)
