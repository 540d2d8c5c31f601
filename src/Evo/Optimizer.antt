-- ===== src/Evo/Optimizer.antt =====
-- src/evo/optimizer.rs: score_artifact, commit_artifact, recommend. Running a task of the evaluation
-- harness and the arithmetic of its numbers are parameters.
use anser.Prelude.{
  ℕ, zero, suc, ◌+◌, ◌-◌, ◌*◌, ◌/◌, ◌%◌, ◌<>◌, Bool, true, false, not, ◌&&◌, Option, none, some,
  List, [], ◌∷◌, ◌++◌, map, length, ltb, leb, if◌then◌else◌, keep_if, String,
}
use Prim.Native.Nat.{Ordering}
use anser.Prelude.Text.{decimal, is_some}
use anser.Evo.Lineage.{LineageNode, LineageError, add_node, head, best_parent}
pub mod Commits

pub data Outcome : Type 0 where
  pass : Outcome
  fail : (reasons : List String) → Outcome
  error : (reason : String) → Outcome

-- What the code does with `f64`.
pub record Numbers (F : Type 0) : Type 0 where
  pub one : F
  pub none_at_all : F
  pub sum : List F → F
  pub over : F → ℕ → F
  pub partial_cmp : F → F → Option Ordering

pub record FitnessEntry (F : Type 0) : Type 0 where
  pub task_id : String
  pub fitness : Option F
  pub outcome : Outcome

-- An entry of the directory of evaluations; `fails` where it cannot be read.
pub record DirEntry : Type 0 where
  pub path : String
  pub is_dir : Bool
  pub has_task : Bool
  pub fails : Bool

pub data OptimizerError : Type 0 where
  evals_dir_missing no_tasks io : OptimizerError
  lineage : LineageError → OptimizerError

pub data Scored (F : Type 0) : Type 0 where
  report : List (FitnessEntry F) → Scored F
  not_scored : OptimizerError → Scored F

unfoldable pub any_fails : List DirEntry → Bool
any_fails [] = false
any_fails (d ∷ ds) = if d.fails then true else any_fails ds

-- Two digits, three and four, with leading zeros.
unfoldable pub pad : (width n : ℕ) → String
unfolding decimal
pad width n =
    (if leb 4 width && ltb n 1000 then "0" else "")
    <> (if leb 3 width && ltb n 100 then "0" else "")
    <> (if leb 2 width && ltb n 10 then "0" else "")
    <> decimal n

-- The year, month and day of a day since 1970; no difference in it is below 0.
unfoldable pub civil_from_days : ℕ → ℕ × ℕ × ℕ
civil_from_days days =
    let z = days + 719468 in
    let era = z / 146097 in
    let doe = z - era * 146097 in
    let yoe = (doe - doe / 1460 + doe / 36524 - doe / 146096) / 365 in
    let doy = doe - (365 * yoe + yoe / 4 - yoe / 100) in
    let mp = (5 * doy + 2) / 153 in
    let d = doy - (153 * mp + 2) / 5 + 1 in
    let mo = if ltb mp 10 then mp + 3 else mp - 9 in
    let y = yoe + era * 400 in ((if leb mo 2 then y + 1 else y), mo, d)

unfoldable pub iso8601_utc : ℕ → String
unfolding civil_from_days pad
iso8601_utc ms =
    let secs = ms / 1000 in
    let rem = secs % 86400 in
    let (y, mo, d) = civil_from_days (secs / 86400) in
    pad 4 y
    <> "-"
    <> pad 2 mo
    <> "-"
    <> pad 2 d
    <> "T"
    <> pad 2 (rem / 3600)
    <> ":"
    <> pad 2 (rem % 3600 / 60)
    <> ":"
    <> pad 2 (rem % 60)
    <> "."
    <> pad 3 (ms % 1000)
    <> "Z"

module _ {F : Type 0} (nums : Numbers F) where
  unfoldable pub fitness_of : Outcome → Option F
  fitness_of pass = some nums.one
  fitness_of (fail reasons) = some nums.none_at_all
  fitness_of (error reason) = none

  -- `filter_map` of the fitness.
  unfoldable pub scoreable : List (FitnessEntry F) → List F
  scoreable [] = []
  scoreable (e ∷ es) = elim e.fitness [ none ↦ scoreable es | some f ↦ f ∷ scoreable es ]

  unfoldable pub mean_fitness : List (FitnessEntry F) → Option F
  unfolding scoreable
  mean_fitness entries = elim (scoreable entries) [
    | [] ↦ none
    | f ∷ fs ↦ some (nums.over (nums.sum (f ∷ fs)) (length (f ∷ fs)))
  ]

  -- The directory is there and can be read or not; the paths are sorted.
  unfoldable pub score_artifact :
      (is_dir : Bool)
      → Option (List DirEntry)
      → (sort : List String → List String) → (run_task : String → String × Outcome) → Scored F
  unfolding fitness_of any_fails
  score_artifact is_dir listing sort run_task =
      if not is_dir then not_scored evals_dir_missing else elim listing [
        | none ↦ not_scored io
        | some ds ↦
            if any_fails ds
            then not_scored io
            else elim (sort (map (λ d. d.path) (keep_if (λ d. d.is_dir && d.has_task) ds))) [
              | [] ↦ not_scored no_tasks
              | p ∷ ps ↦ report (map entry_of (p ∷ ps))
            ]
      ]
    where
      entry_of : String → FitnessEntry F
      entry_of p =
          let (id, outcome) = run_task p in
          record { task_id = id; fitness = fitness_of outcome; outcome = outcome }

  unfoldable pub head_id : Option (LineageNode F) → List String
  head_id none = []
  head_id (some h) = h.id ∷ []

  unfoldable pub commit_id : (now_ms count : ℕ) → String
  unfolding decimal
  commit_id now_ms count = "commit-" <> decimal now_ms <> "-" <> decimal count

  unfoldable pub commit_node :
      List (LineageNode F) → String → List (FitnessEntry F) → (now_ms : ℕ) → LineageNode F
  unfolding head_id head commit_id mean_fitness iso8601_utc
  commit_node nodes artifact_ref entries now_ms = record {
    id = commit_id now_ms (length nodes);
    parents = head_id (head nums.partial_cmp nodes);
    fitness = mean_fitness entries;
    artifact_ref = artifact_ref;
    created_at = iso8601_utc now_ms;
  }

  -- The lineage behind the call, with its error; the id is that of the node.
  unfoldable pub commit_artifact :
      List (LineageNode F)
      → String
      → List (FitnessEntry F)
      → (now_ms : ℕ) → List (LineageNode F) × Option LineageError
  unfolding commit_node add_node
  commit_artifact nodes artifact_ref entries now_ms =
      add_node (commit_node nodes artifact_ref entries now_ms) nodes

  unfoldable pub recommend : List (LineageNode F) → Option (LineageNode F)
  unfolding best_parent
  recommend nodes = best_parent nums.partial_cmp nodes
