-- ===== src/Evo/Lineage.antt =====
-- src/evo/lineage.rs: Lineage. A score is a floating-point number, of which only the partial order
-- counts; JSON is a parameter.
use Prim.Native.Nat.{Ordering}
use Prim.Native.String.{compare}
use anser.Prelude.{
  ℕ, zero, suc, ◌+◌, String, Bool, true, false, ◌||◌, ◌&&◌, not, Option, none, some, List, [], ◌∷◌,
  ◌++◌, map, reverse, length, keep_if, if◌then◌else◌, ◌==◌, string_key,
}
use anser.Prelude.Text.{text_key, Text, trim, is_some}
use anser.Tools.Paths.{split_at}
pub mod Appends
pub mod Walks
pub mod Ancestry
pub mod Files

pub record LineageNode (F : Type 0) : Type 0 where
  pub id : String
  pub parents : List String
  pub fitness : Option F
  pub artifact_ref : String
  pub created_at : String

pub data Corruption : Type 0 where
  invalid_json : Corruption
  duplicate_in_file self_parent : (id : String) → Corruption
  dangling : (parent id : String) → Corruption

pub data LineageError : Type 0 where
  unknown_parent : (parent id : String) → LineageError
  duplicate_id : (id : String) → LineageError
  corrupt : (line : ℕ) (what : Corruption) → LineageError
  io : LineageError

pub data Loaded (F : Type 0) : Type 0 where
  loaded : List (LineageNode F) → Loaded F
  load_failed : LineageError → Loaded F

unfoldable pub member_of : String → List String → Bool
member_of x [] = false
member_of x (y ∷ ys) = (x == y) || member_of x ys

unfoldable pub first_unknown : (known parents : List String) → Option String
unfolding member_of
first_unknown known [] = none
first_unknown known (p ∷ ps) =
    let rest = first_unknown known ps in if member_of p known then rest else some p

pub data Walk (F : Type 0) : Type 0 where
  walked : List (LineageNode F) → Walk F
  missing : Walk F
  out_of_fuel : Walk F

module _ {F : Type 0} where
  abbrev pub ids : List (LineageNode F) → List String
  ids ns = map (λ n. n.id) ns

  unfoldable pub add_node :
      LineageNode F → List (LineageNode F) → List (LineageNode F) × Option LineageError
  unfolding member_of first_unknown
  add_node node nodes =
      if member_of node.id (ids nodes)
      then (nodes, some (duplicate_id node.id))
      else elim (first_unknown (ids nodes) node.parents) [
        | some parent ↦ (nodes, some (unknown_parent parent node.id))
        | none ↦ (nodes ++ node ∷ [], none)
      ]

  unfoldable pub find_node : String → List (LineageNode F) → Option (LineageNode F)
  find_node id [] = none
  find_node id (n ∷ ns) = let rest = find_node id ns in if n.id == id then some n else rest

  -- The loop, whose stack has its top first: the last parent that was pushed is taken next.
  unfoldable pub walk :
      List (LineageNode F) → ℕ → (out : List (LineageNode F)) → (seen stack : List String) → Walk F
  unfolding member_of find_node
  walk nodes fuel out seen [] = walked out
  walk nodes zero out seen (cur ∷ stack) = out_of_fuel
  walk nodes (suc fuel) out seen (cur ∷ stack) =
      let skipped = walk nodes fuel out seen stack in
      let onward = λ (node : LineageNode F).
        walk nodes fuel (out ++ node ∷ []) (cur ∷ seen) (reverse node.parents ++ stack) in
      if member_of cur seen
      then skipped
      else elim (find_node cur nodes) [ none ↦ missing | some node ↦ onward node ]

  -- One step for the first id, and one for each parent that is pushed.
  abbrev pub links : List (LineageNode F) → ℕ
  links [] = 0
  links (n ∷ ns) = length n.parents + links ns

  unfoldable pub walk_ancestors : List (LineageNode F) → String → Walk F
  unfolding walk
  walk_ancestors nodes id = walk nodes (suc (links nodes)) [] [] (id ∷ [])

  -- The second loop of `load`.
  unfoldable pub check_parents :
      (seen : List String) → ℕ → LineageNode F → List String → Option LineageError
  unfolding member_of
  check_parents seen line node [] = none
  check_parents seen line node (p ∷ ps) =
      let rest = check_parents seen line node ps in
      if p == node.id
      then some (corrupt line (self_parent node.id))
      else if not (member_of p seen)
      then some (corrupt line (dangling p node.id))
      else rest

  unfoldable pub check_nodes : (seen : List String) → List (ℕ × LineageNode F) → Option LineageError
  unfolding check_parents
  check_nodes seen [] = none
  check_nodes seen ((line, node) ∷ rest) = elim (check_parents seen line node node.parents) [
    | some error ↦ some error
    | none ↦ check_nodes seen rest
  ]

  module _ (from_str : Text → Option (LineageNode F)) where
    unfoldable pub check_loaded : (seen : List String) → List (ℕ × LineageNode F) → Loaded F
    unfolding check_nodes
    check_loaded seen nodes = elim (check_nodes seen nodes) [
      | some error ↦ load_failed error
      | none ↦ loaded (map (λ (_, n). n) nodes)
    ]

    -- The first loop, over the lines from number `line` on.
    unfoldable pub load_lines :
        ℕ → (seen : List String) → List (ℕ × LineageNode F) → List Text → Loaded F
    unfolding check_loaded member_of trim
    load_lines line seen nodes [] = check_loaded seen nodes
    load_lines line seen nodes (t ∷ ts) =
        let skipped = load_lines (suc line) seen nodes ts in
        let onward = λ (node : LineageNode F).
          load_lines (suc line) (node.id ∷ seen) (nodes ++ (line, node) ∷ []) ts in
        if trim t == [] then skipped else elim (from_str (trim t)) [
          | none ↦ load_failed (corrupt line invalid_json)
          | some node ↦
              if member_of node.id seen
              then load_failed (corrupt line (duplicate_in_file node.id))
              else onward node
        ]

    -- A file that is missing, that cannot be read, or that holds a text.
    unfoldable pub load : (exists : Bool) → Option Text → Loaded F
    unfolding load_lines split_at
    load false raw = loaded []
    load true none = load_failed io
    load true (some raw) = load_lines 1 [] [] (split_at 10 [] raw)

  -- What `save_to` writes; serde_json does not fail on a node.
  unfoldable pub save_text : (LineageNode F → Text) → List (LineageNode F) → Text
  save_text to_string [] = []
  save_text to_string (n ∷ ns) = to_string n ++ 10 ∷ [] ++ save_text to_string ns

  module _ (partial_cmp : F → F → Option Ordering) where
    -- `then_with`.
    unfoldable pub then_by : Option Ordering → Ordering → Ordering
    then_by (some Ordering.lt) later = Ordering.lt
    then_by (some Ordering.gt) later = Ordering.gt
    then_by _ later = later

    unfoldable pub compare_fitness : (a b : LineageNode F) → Ordering
    unfolding then_by
    compare_fitness a b = elim a.fitness [
      | none ↦ Ordering.eq
      | some x ↦ elim b.fitness [
        | none ↦ Ordering.eq
        | some y ↦ then_by (partial_cmp x y) (compare b.created_at a.created_at)
      ]
    ]

    -- `max_by`, which takes the later of two that compare equal.
    unfoldable pub max_by : LineageNode F → List (LineageNode F) → LineageNode F
    unfolding compare_fitness
    max_by best [] = best
    max_by best (n ∷ ns) = elim (compare_fitness best n) [
      | Ordering.gt ↦ max_by best ns
      | _ ↦ max_by n ns
    ]

    abbrev pub max_of : List (LineageNode F) → Option (LineageNode F)
    max_of [] = none
    max_of (n ∷ ns) = some (max_by n ns)

    unfoldable pub best_parent : List (LineageNode F) → Option (LineageNode F)
    unfolding max_by
    best_parent nodes = max_of (keep_if (λ n. is_some n.fitness) nodes)

    abbrev pub all_parents : List (LineageNode F) → List String
    all_parents [] = []
    all_parents (n ∷ ns) = n.parents ++ all_parents ns

    unfoldable pub head : List (LineageNode F) → Option (LineageNode F)
    unfolding max_by member_of
    head nodes = max_of (
        keep_if (λ n. is_some n.fitness)
          (keep_if (λ n. not (member_of n.id (all_parents nodes))) nodes))
