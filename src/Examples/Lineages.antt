-- ===== src/Examples/Lineages.antt =====
-- The theorems on src/evo/lineage.rs and src/evo/optimizer.rs at small lineages.
use anser.Prelude.{
  arith, ◌≢◌, ◌<◌, ◌⊎◌, ◌++◌, inl, inr, ◌/◌, length, ◌+◌, ℕ, ◌≡◌, ◌↔◌, refl, String, true, false,
  Option, none, some, List, [], ◌∷◌, Listed, All, if◌then◌else◌, ◌==◌, string_key,
}
use anser.Prelude.Text.{text_key, Text, codes, trim}
use anser.Prelude.Lines.{split_line}
use anser.Evo.Lineage.{
  then_by, compare_fitness, LineageNode, member_of, ids, add_node, find_node, walked,
  walk_ancestors, load, save_text, loaded,
}
use anser.Evo.Lineage.Appends.{Known, InOrder, add_node-InOrder}
use Prim.Native.Nat.{Ordering, compare}
use anser.Evo.Optimizer.{
  Numbers, FitnessEntry, pass, fail, error, mean_fitness, iso8601_utc, commit_id, commit_artifact,
}
use anser.Evo.Optimizer.Commits.{ParentsOf, Ranks, commit_artifact-InOrder}
use anser.Evo.Lineage.Walks.{walk_ancestors_total}
use anser.Evo.Lineage.Ancestry.{Reach, walk_ancestors-Reach}
use anser.Evo.Lineage.Files.{Prints, Loadable, load-save_text}

abbrev commit : String → List String → LineageNode ℕ
commit id parents = record {
  id = id;
  parents = parents;
  fitness = none;
  artifact_ref = "";
  created_at = "";
}

abbrev first : LineageNode ℕ
first = commit "a" []

abbrev second : LineageNode ℕ
second = commit "b" ("a" ∷ [])

abbrev two : List (LineageNode ℕ)
two = first ∷ second ∷ []

two-InOrder : InOrder [] two
unfolding member_of
two-InOrder = (refl, tt, (refl, (refl, tt), tt))

add_node-InOrder_example :
    InOrder [] (add_node (commit "c" ("b" ∷ [])) two).0
    × (((add_node (commit "c" ("b" ∷ [])) two).1 ≡ none)
        ↔ ((member_of "c" (ids two) ≡ false) × All (Known (ids two)) ("b" ∷ [])))
    × (((add_node (commit "c" ("b" ∷ [])) two).1 ≡ none)
          × ((add_node (commit "c" ("b" ∷ [])) two).0 ≡ two ++ commit "c" ("b" ∷ []) ∷ [])
        ⊎ ((add_node (commit "c" ("b" ∷ [])) two).1 ≢ none)
          × ((add_node (commit "c" ("b" ∷ [])) two).0 ≡ two))
add_node-InOrder_example = add_node-InOrder (commit "c" ("b" ∷ [])) two two-InOrder

walk_ancestors_total_example : (out : List (LineageNode ℕ)) × (walk_ancestors two "b" ≡ walked out)
unfolding member_of
walk_ancestors_total_example = walk_ancestors_total two "b" two-InOrder refl

walk_ancestors-Reach_example :
    ((n : LineageNode ℕ) → Listed n (second ∷ first ∷ []) → Reach two "b" n.id)
    × ((x : String)
        → Reach two "b" x
        → (n : LineageNode ℕ) × (find_node x two ≡ some n) × Listed n (second ∷ first ∷ []))
unfolding walk_ancestors
walk_ancestors-Reach_example = walk_ancestors-Reach two "b" (second ∷ first ∷ []) refl

-- Commits that lead round in a circle, printed by their ids.
abbrev round : List (LineageNode ℕ)
round = commit "a" ("b" ∷ []) ∷ second ∷ []

abbrev to_string : LineageNode ℕ → Text
to_string n = codes n.id

abbrev from_str : Text → Option (LineageNode ℕ)
from_str t =
    if t == codes "a"
    then some (commit "a" ("b" ∷ []))
    else if t == codes "b"
    then some second
    else none

round-Prints : All (Prints to_string from_str) round
unfolding split_line trim text_key
round-Prints = (
  record { one_line = refl; trimmed = refl; some_text = λ h. cc; reads = refl },
  (record { one_line = refl; trimmed = refl; some_text = λ h. cc; reads = refl }, tt),
)

round-Loadable : Loadable round
unfolding member_of
round-Loadable = record {
  fresh = (refl, (refl, tt));
  sound = (((refl, refl), tt), (((refl, refl), tt), tt));
}

-- The circle is loaded, although each of its nodes is an ancestor of itself.
load-save_text_example : load from_str true (some (save_text to_string round)) ≡ loaded round
load-save_text_example = load-save_text to_string from_str round round-Prints round-Loadable

abbrev numbers : Numbers ℕ
numbers = record {
  one = 100;
  none_at_all = 0;
  sum = λ fs. elim fs [ [] ↦ 0 | x ∷ (xs → s) ↦ x + s ];
  over = λ total n. total / n;
  partial_cmp = λ x y. some (compare x y);
}

abbrev half_passed : List (FitnessEntry ℕ)
half_passed =
    record { task_id = "t1"; fitness = some 100; outcome = pass }
    ∷ record { task_id = "t2"; fitness = none; outcome = error "no fixture" }
    ∷ record { task_id = "t3"; fitness = some 0; outcome = fail [] }
    ∷ []

mean_runs : mean_fitness numbers half_passed ≡ some 50
unfolding mean_fitness
mean_runs = refl

iso8601_runs : iso8601_utc 1767225600000 ≡ "2026-01-01T00:00:00.000Z"
unfolding iso8601_utc
iso8601_runs = refl

-- Two roots with a fitness; the second is the better one.
abbrev low : LineageNode ℕ
low = record (commit "a" []) { fitness = some 10 }

abbrev high : LineageNode ℕ
high = record (commit "b" []) { fitness = some 20 }

abbrev roots : List (LineageNode ℕ)
roots = low ∷ high ∷ []

abbrev by_fitness : LineageNode ℕ → ℕ
by_fitness n = elim n.fitness [ none ↦ 0 | some x ↦ x ]

low_below : (compare_fitness numbers.partial_cmp low high ≡ Ordering.gt) ↔ (20 < 10)
unfolding compare_fitness then_by
low_below = (λ e. absurd (cc), λ h. absurd (omega arith))

high_above : (compare_fitness numbers.partial_cmp high low ≡ Ordering.gt) ↔ (10 < 20)
unfolding compare_fitness then_by
high_above = (λ e. omega arith, λ h. refl)

low_itself : (compare_fitness numbers.partial_cmp low low ≡ Ordering.gt) ↔ (10 < 10)
unfolding compare_fitness then_by
low_itself = (λ e. absurd (cc), λ h. absurd (omega arith))

high_itself : (compare_fitness numbers.partial_cmp high high ≡ Ordering.gt) ↔ (20 < 20)
unfolding compare_fitness then_by
high_itself = (λ e. absurd (cc), λ h. absurd (omega arith))

roots-Ranks : Ranks numbers.partial_cmp by_fitness roots
roots-Ranks a b (inl same_a) (inl same_b) sa sb = rw (same_a, same_b) low_itself
roots-Ranks a b (inl same_a) (inr (inl same_b)) sa sb = rw (same_a, same_b) low_below
roots-Ranks a b (inr (inl same_a)) (inl same_b) sa sb = rw (same_a, same_b) high_above
roots-Ranks a b (inr (inl same_a)) (inr (inl same_b)) sa sb = rw (same_a, same_b) high_itself
roots-Ranks a b (inl same_a) (inr (inr away)) sa sb = elim away [ ]
roots-Ranks a b (inr (inl same_a)) (inr (inr away)) sa sb = elim away [ ]
roots-Ranks a b (inr (inr away)) _ sa sb = elim away [ ]

roots-InOrder : InOrder [] roots
unfolding member_of
roots-InOrder = (refl, tt, (refl, tt, tt))

commit_artifact-InOrder_example :
    let done = commit_artifact numbers roots "artifact" half_passed 5 in
    InOrder [] done.0
    × ((done.1 ≡ none) ↔ (member_of (commit_id numbers 5 (length roots)) (ids roots) ≡ false))
    × ((n : LineageNode ℕ) × (n.id ≡ commit_id numbers 5 (length roots))
        × ParentsOf numbers.partial_cmp by_fitness roots n.parents
        × (n.fitness ≡ mean_fitness numbers half_passed)
        × ((done.1 ≡ none) × (done.0 ≡ roots ++ n ∷ []) ⊎ (done.1 ≢ none) × (done.0 ≡ roots)))
commit_artifact-InOrder_example =
    commit_artifact-InOrder numbers by_fitness roots "artifact" half_passed 5 roots-InOrder
      roots-Ranks
