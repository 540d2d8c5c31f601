-- ===== src/State/Races.antt =====
-- Two processes that take over one stale lock, src/state/mod.rs.
use anser.Prelude.{ℕ, ◌-◌, ◌≤◌, ◌≡◌, String, true, some, arith, string_key}
use anser.Prelude.Dict.{lookup, lookup-insert_self, lookup-erase_self}
use anser.State.{
  can_create, Locks, LockFile, value, Env, alone, ok, acquired, acquire, take_over, create_again,
  write_lock, bury, check_held, read_lock,
}
use anser.State.Laws.{acquire_stale}

abbrev pub AllOk : Env → Type 0
AllOk e = (e.dir_ok ≡ true) × (e.write_ok ≡ true) × (e.rename_ok ≡ true) × (e.recreate_ok ≡ true)

-- The rename moves away whatever stands at the path by then.
acquire_buries :
    (p : Env) (meanwhile : Locks → Locks) (name : String) (ttl : ℕ) (s : Locks)
    (pid held_at stored : ℕ) (f : LockFile)
    → AllOk p
    → lookup name s.files ≡ some (value (some pid) (some held_at) (some stored))
    → ttl ≤ p.now - held_at
    → lookup name (meanwhile s).files ≡ some f
    → ((acquire p (record alone { before_rename = meanwhile }) name ttl s).0 ≡ ok acquired)
      × (lookup name
            (acquire p (record alone { before_rename = meanwhile }) name ttl s).1.tombstones
          ≡ some f)
unfolding acquire take_over check_held read_lock bury create_again write_lock can_create
acquire_buries p meanwhile name ttl s pid held_at stored f (pd, pw, pr, pc) e po there = ground (
  arith,
  lookup-erase_self name (meanwhile s).files,
  lookup-insert_self name f (meanwhile s).tombstones,
)

-- The second look at the file does not close the race. If `q` takes the stale lock over between the
-- second read and the rename of `p`, then `p` buries the fresh lock of `q`, and both are told that
-- they hold it.
pub take_over_race :
    (p q : Env) (name : String) (ttl : ℕ) (s : Locks) (pid held_at stored : ℕ)
    → AllOk p
    → AllOk q
    → lookup name s.files ≡ some (value (some pid) (some held_at) (some stored))
    → ttl ≤ p.now - held_at
    → ttl ≤ q.now - held_at
    → let rivals = record alone { before_rename = λ t. (acquire q alone name ttl t).1 } in
      ((acquire q alone name ttl s).0 ≡ ok acquired)
      × ((acquire p rivals name ttl s).0 ≡ ok acquired)
      × (lookup name (acquire p rivals name ttl s).1.tombstones
          ≡ some (value (some q.pid) (some q.now) (some ttl)))
take_over_race p q name ttl s pid held_at stored pok (qd, qw, qr, qc) e po qo =
    let won = acquire_stale q name ttl s pid held_at stored qd qw qr qc e qo in
    let lost =
      acquire_buries p (λ t. (acquire q alone name ttl t).1) name ttl s pid held_at stored
        (value (some q.pid) (some q.now) (some ttl)) pok e po won.1 in
    (won.0, lost.0, lost.1)
