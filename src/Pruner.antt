-- ===== src/Pruner.antt =====
-- src/pruner.rs: what a plan deletes. A file's content is what the code reads from it.
pub mod Gates
pub mod Plans
pub mod Apply
use anser.Prelude.{
  ℕ, zero, suc, ◌+◌, ◌-◌, ◌*◌, String, Bool, true, false, not, ◌&&◌, ◌||◌, Option, none, some, List,
  [], ◌∷◌, ◌++◌, map, if◌then◌else◌, ◌==◌, string_key, nat_key, leb, ltb, length, keep_if,
}
use anser.Prelude.Text.{Text, codes, starts_with, ends_with, strip_prefix}

pub record PrunePolicy : Type 0 where
  pub max_age_ms : ℕ
  pub max_count : ℕ
  pub max_size_mb : ℕ

-- An entry of `sessions/`: `mtime` and `size` are what `session_mtime` and `dir_size_bytes` find, and
-- `events` are the types of the events of its log, where the log can be read; a line that is blank,
-- malformed or has no type is `none`.
pub record SessionEntry : Type 0 where
  pub id : String
  pub is_dir : Bool
  pub mtime : ℕ
  pub size : ℕ
  pub events : Option (List (Option String))

-- The members of a JSON file that the code looks at.
pub record TaskDoc : Type 0 where
  pub id : Option String
  pub status : Option String
  pub session_id : Option String

-- An entry of `tasks/`; one that cannot be read or parsed has no document.
pub record TaskFile : Type 0 where
  pub name : String
  pub mtime : ℕ
  pub doc : Option TaskDoc

-- A slot lease or a lockfile, with the task that it names.
pub record Reference : Type 0 where
  pub name : String
  pub task_id : Option String

pub record EvoEntry : Type 0 where
  pub name : String
  pub is_dir : Bool
  pub mtime : ℕ

-- The state directory; a sub-directory that is missing or cannot be listed is empty.
pub record StateDir : Type 0 where
  pub sessions : List SessionEntry
  pub tasks : List TaskFile
  pub slots : List Reference
  pub locks : List Reference
  pub telemetry : Option ℕ
  pub evo : List EvoEntry

unfoldable pub contains : List String → String → Bool
contains [] id = false
contains (x ∷ xs) id = let rest = contains xs id in if x == id then true else rest

abbrev pub is_terminal_type : Option String → Bool
is_terminal_type none = false
is_terminal_type (some t) = t == "session_end" || t == "session_error"

unfoldable pub any_terminal : List (Option String) → Bool
any_terminal [] = false
any_terminal (t ∷ ts) = let rest = any_terminal ts in if is_terminal_type t then true else rest

unfoldable pub session_has_terminal_event : SessionEntry → Bool
session_has_terminal_event s = elim s.events [ none ↦ false | some ts ↦ any_terminal ts ]

abbrev pub is_done : Option String → Bool
is_done none = false
is_done (some t) = t == "completed" || t == "failed" || t == "cancelled"

abbrev pub json : Text
json = codes ".json"

-- The session that a task file keeps, if the task is not done.
unfoldable pub active_session : TaskFile → Option String
active_session t =
    if ends_with (codes t.name) json
    then elim t.doc [ none ↦ none | some d ↦ if is_done d.status then none else d.session_id ]
    else none

abbrev pub or_skip : Option String → List String → List String
or_skip none ids = ids
or_skip (some id) ids = id ∷ ids

unfoldable pub active_task_session_ids : List TaskFile → List String
active_task_session_ids [] = []
active_task_session_ids (t ∷ ts) = or_skip (active_session t) (active_task_session_ids ts)

unfoldable pub directories : List SessionEntry → List SessionEntry
directories ss = keep_if (λ s. s.is_dir) ss

-- A session that is neither open nor kept by a task.
unfoldable pub is_candidate : List String → SessionEntry → Bool
is_candidate active s = session_has_terminal_event s && not (contains active s.id)

unfoldable pub classify : List String → List SessionEntry → List SessionEntry
classify active ss = keep_if (is_candidate active) ss

-- `sort_by_key` on the time of modification, which keeps the order of equal ones.
unfoldable pub insert_sorted : SessionEntry → List SessionEntry → List SessionEntry
insert_sorted s [] = s ∷ []
insert_sorted s (t ∷ ts) =
    let rest = insert_sorted s ts in if leb s.mtime t.mtime then s ∷ t ∷ ts else t ∷ rest

unfoldable pub sort_by_mtime : List SessionEntry → List SessionEntry
sort_by_mtime [] = []
sort_by_mtime (s ∷ ss) = insert_sorted s (sort_by_mtime ss)

-- The gates add to the set of ids to prune.
unfoldable pub gate_age : (now max_age : ℕ) → List SessionEntry → List String → List String
gate_age now max_age [] set = set
gate_age now max_age (s ∷ ss) set =
    gate_age now max_age ss (if ltb max_age (now - s.mtime) then s.id ∷ set else set)

unfoldable pub gate_count : (excess : ℕ) → List SessionEntry → List String → List String
gate_count excess [] set = set
gate_count zero (s ∷ ss) set = set
gate_count (suc excess) (s ∷ ss) set =
    if contains set s.id then gate_count (suc excess) ss set else gate_count excess ss (s.id ∷ set)

unfoldable pub gate_size : (max_bytes remaining : ℕ) → List SessionEntry → List String → List String
gate_size max_bytes remaining [] set = set
gate_size max_bytes remaining (s ∷ ss) set =
    if leb remaining max_bytes
    then set
    else if contains set s.id
    then gate_size max_bytes remaining ss set
    else gate_size max_bytes (remaining - s.size) ss (s.id ∷ set)

unfoldable pub total_size : List SessionEntry → ℕ
total_size [] = 0
total_size (s ∷ ss) = s.size + total_size ss

unfoldable pub selected : List String → List SessionEntry → List SessionEntry
selected set ss = keep_if (λ s. contains set s.id) ss

-- The candidates, oldest first.
unfoldable pub candidates : StateDir → List SessionEntry
candidates d = sort_by_mtime (classify (active_task_session_ids d.tasks) (directories d.sessions))

-- The ids that the three gates select; a count or a size within its limit leaves no excess.
unfoldable pub to_prune : PrunePolicy → (now : ℕ) → StateDir → List String
to_prune policy now d =
    let max_bytes = policy.max_size_mb * 1024 * 1024 in
    let aged = gate_age now policy.max_age_ms (candidates d) [] in
    let counted =
      gate_count (length (directories d.sessions) - policy.max_count) (candidates d) aged in
    gate_size max_bytes (total_size (directories d.sessions)) (candidates d) counted

unfoldable pub plan_sessions : PrunePolicy → (now : ℕ) → StateDir → List SessionEntry
plan_sessions policy now d = selected (to_prune policy now d) (candidates d)

unfoldable pub referenced : (prefix suffix : String) → List Reference → List String
referenced prefix suffix [] = []
referenced prefix suffix (r ∷ rs) =
    let rest = referenced prefix suffix rs in
    if starts_with (codes r.name) (codes prefix) && ends_with (codes r.name) (codes suffix)
    then or_skip r.task_id rest
    else rest

unfoldable pub protected_task_ids : StateDir → List String
protected_task_ids d = referenced "slot_" ".json" d.slots ++ referenced "" ".lock" d.locks

-- `str::contains`.
unfoldable pub has_infix : Text → Text → Bool
has_infix [] p = starts_with [] p
has_infix (c ∷ cs) p = let rest = has_infix cs p in if starts_with (c ∷ cs) p then true else rest

abbrev pub is_protected : List String → Option String → Bool
is_protected protected none = false
is_protected protected (some id) = contains protected id

-- Whether a task file is planned.
unfoldable pub prunes_task : PrunePolicy → (now : ℕ) → List String → TaskFile → Bool
prunes_task policy now protected t =
    ends_with (codes t.name) json && not (has_infix (codes t.name) (codes ".tmp_")) && elim t.doc [
      | none ↦ false
      | some d ↦
          is_done d.status
          && not (is_protected protected d.id)
          && ltb policy.max_age_ms (now - t.mtime)
    ]

unfoldable pub plan_tasks : PrunePolicy → (now : ℕ) → StateDir → List TaskFile
plan_tasks policy now d = keep_if (prunes_task policy now (protected_task_ids d)) d.tasks

unfoldable pub plan_telemetry : PrunePolicy → (now : ℕ) → StateDir → Bool
plan_telemetry policy now d = elim d.telemetry [
  | none ↦ false
  | some mtime ↦ ltb policy.max_age_ms (now - mtime)
]

unfoldable pub plan_evo : PrunePolicy → (now : ℕ) → StateDir → List EvoEntry
plan_evo policy now d = keep_if (λ e. e.is_dir && ltb policy.max_age_ms (now - e.mtime)) d.evo
