-- ===== src/Pruner/Apply.antt =====
-- src/pruner.rs: `apply`, which deletes what a plan names, and the fingerprint that binds a plan to
-- the state it was made from.
pub mod Laws
use anser.Prelude.{
  ℕ, zero, suc, ◌+◌, ◌*◌, ◌/◌, ◌%◌, ◌^◌, ◌≡◌, ◌≢◌, refl, ap, sym, ◌∙◌, String, Bool, true, false,
  not, Option, none, some, List, [], ◌∷◌, ◌++◌, if◌then◌else◌, ◌==◌, string_key, nat_key, length,
  length-append, arith, ==_self, ==_ne,
}
use mathlib.Core.List.{append-nil, append_assoc}

pub record PrunePlan : Type 0 where
  pub state_dir : String
  pub fingerprint : ℕ
  pub sessions : List String
  pub tasks : List String
  pub telemetry : List String
  pub evo : List String
  pub applied : Bool

pub data PruneError : Type 0 where
  not_from_plan already_applied : PruneError
  io : (message : String) → PruneError

pub data Outcome : Type 0 where
  deleted : (n : ℕ) → Outcome
  refused : PruneError → Outcome

-- Exclusive or on the lowest bits.
unfoldable pub xor_bits : (bits : ℕ) → ℕ → ℕ → ℕ
xor_bits zero a b = 0
xor_bits (suc bits) a b = (a + b) % 2 + 2 * xor_bits bits (a / 2) (b / 2)

-- FNV-1a on 64 bits.
unfoldable pub hash_bytes : ℕ → List ℕ → ℕ
hash_bytes h [] = h
hash_bytes h (b ∷ bs) = hash_bytes ((xor_bits 64 h b * 0x100000001b3) % 2 ^ 64) bs

-- `u64::to_le_bytes`.
unfoldable pub le_bytes : (n : ℕ) → ℕ → List ℕ
le_bytes zero t = []
le_bytes (suc n) t = t % 256 ∷ le_bytes n (t / 256)

unfoldable pub hash_entries : (String → List ℕ) → ℕ → List (String × ℕ) → ℕ
hash_entries utf8 h [] = h
hash_entries utf8 h ((name, mtime) ∷ es) =
    hash_entries utf8 (hash_bytes (hash_bytes h (utf8 name)) (le_bytes 8 mtime)) es

unfoldable pub hash_paths : (String → List ℕ) → ℕ → List String → ℕ
hash_paths utf8 h [] = h
hash_paths utf8 h (p ∷ ps) = hash_paths utf8 (hash_bytes h (utf8 p)) ps

-- The entries of the four sub-directories, each sorted by the standard library, in one list.
unfoldable pub compute_fingerprint :
    (String → List ℕ)
    → (state_dir : String) → (layout : List (String × ℕ))
    → (sessions tasks telemetry evo : List String) → ℕ
compute_fingerprint utf8 state_dir layout sessions tasks telemetry evo =
    let start = hash_bytes 0xcbf29ce484222325 (utf8 state_dir) in
    let laid = hash_entries utf8 start layout in
    hash_paths utf8
      (hash_paths utf8 (hash_paths utf8 (hash_paths utf8 laid sessions) tasks) telemetry) evo

-- The plan that `plan` makes of the paths that it selects.
unfoldable pub plan :
    (String → List ℕ)
    → (state_dir : String) → (layout : List (String × ℕ))
    → (sessions tasks telemetry evo : List String) → PrunePlan
plan utf8 state_dir layout sessions tasks telemetry evo = record {
  state_dir = state_dir;
  fingerprint = compute_fingerprint utf8 state_dir layout sessions tasks telemetry evo;
  sessions = sessions;
  tasks = tasks;
  telemetry = telemetry;
  evo = evo;
  applied = false;
}

unfoldable pub len : PrunePlan → ℕ
len p = length p.sessions + length p.tasks + length p.telemetry + length p.evo

-- The removals go on until one fails; the list of the removed paths is the record of the state. The
-- removal of a file and that of a directory differ only in the call.
unfoldable pub remove_all :
    (String → Option String) → List String → ℕ → List String → Outcome × List String
remove_all fault [] n removed = (deleted n, removed)
remove_all fault (p ∷ ps) n removed =
    let rest = remove_all fault ps (suc n) (removed ++ p ∷ []) in
    elim (fault p) [ none ↦ rest | some e ↦ (refused (io e), removed) ]

-- A plan that was carried out is marked.
abbrev pub mark : PrunePlan → Outcome × List String → Outcome × PrunePlan × List String
mark p (deleted n, removed) = (deleted n, record p { applied = true }, removed)
mark p (refused e, removed) = (refused e, p, removed)

-- The paths in the order in which `apply` removes them.
abbrev pub paths : PrunePlan → List String
paths p = p.sessions ++ p.tasks ++ p.telemetry ++ p.evo

unfoldable pub apply :
    (String → List ℕ)
    → (String → Option String)
    → (state_dir : String) → (layout : List (String × ℕ)) → PrunePlan
    → (removed : List String) → Outcome × PrunePlan × List String
apply utf8 fault state_dir layout p removed =
    if p.applied
    then (refused already_applied, p, removed)
    else if not (p.state_dir == state_dir)
    then (refused not_from_plan, p, removed)
    else if not (
        compute_fingerprint utf8 state_dir layout p.sessions p.tasks p.telemetry p.evo
        == p.fingerprint)
    then (refused not_from_plan, p, removed)
    else mark p (remove_all fault (paths p) 0 removed)
