-- ===== src/Task/Liveness.antt =====
-- `pid_alive` and `is_linux_zombie` of src/task/semaphore.rs, on Linux.
use anser.Prelude.{
  ℕ, ◌≡◌, ◌≢◌, Bool, true, false, Option, none, some, List, [], ◌∷◌, if◌then◌else◌, not,
}
use anser.Prelude.{arith, ◌==◌, nat_key, nat_eqb_iff, refl, ◌⊎◌, ◌↔◌}
use anser.Prelude.Text.{Text, codes, starts_with, trim_start, strip_prefix}

-- What the kernel answers about a process: whether `kill(pid, 0)` returns 0, whether its error is
-- EPERM, and the lines of `/proc/<pid>/status`, if that file can be read.
pub record Kernel : Type 0 where
  pub kill_ok : ℕ → Bool
  pub eperm : ℕ → Bool
  pub status_lines : ℕ → Option (List Text)

unfoldable pub find_state : List Text → Option Text
unfolding starts_with
find_state [] = none
find_state (l ∷ ls) = if starts_with l (codes "State:") then some l else find_state ls

-- `trim_start_matches`: the prefix goes as often as it stands there; the line's length is fuel.
unfoldable pub trim_matches : Text → Text → Text → Text
unfolding strip_prefix
trim_matches p [] t = t
trim_matches p (_ ∷ fuel) t = elim (strip_prefix t p) [
  | none ↦ t
  | some rest ↦ trim_matches p fuel rest
]

starts_z : Option Text → Bool
unfolding trim_matches starts_with trim_start
starts_z none = false
starts_z (some l) = starts_with (trim_start (trim_matches (codes "State:") l l)) (codes "Z")

zombie_in : Option (List Text) → Bool
unfolding find_state starts_z
zombie_in none = false
zombie_in (some ls) = starts_z (find_state ls)

unfoldable pub is_linux_zombie : Kernel → ℕ → Bool
unfolding zombie_in
is_linux_zombie k pid = zombie_in (k.status_lines pid)

-- `me` is the calling process.
unfoldable pub pid_alive : Kernel → ℕ → ℕ → Bool
unfolding is_linux_zombie
pid_alive k me pid =
    if pid == 0
    then false
    else if pid == me
    then true
    else if k.kill_ok pid
    then not (is_linux_zombie k pid)
    else k.eperm pid

-- A process other than the caller counts as alive exactly if its pid is not 0 and either the probe
-- succeeds and it is no zombie, or the probe fails with EPERM.
pub pid_alive_iff :
    (k : Kernel) (me pid : ℕ)
    → pid ≢ me
    → (pid_alive k me pid ≡ true) ↔ (
        (pid ≢ 0)
        × (((k.kill_ok pid ≡ true) × (is_linux_zombie k pid ≡ false))
            ⊎ ((k.kill_ok pid ≡ false) × (k.eperm pid ≡ true))))
unfolding pid_alive
pid_alive_iff k me pid other = ground (arith, nat_eqb_iff pid 0, nat_eqb_iff pid me)

zombie_runs :
    is_linux_zombie
      (record {
        kill_ok = λ _. true;
        eperm = λ _. false;
        status_lines = λ _. some (codes "Name: true" ∷ codes "State:  Z (zombie)" ∷ []);
      })
      7
    ≡ true
unfolding is_linux_zombie
zombie_runs = refl
