-- ===== src/Evo/Lineage/Walks.antt =====
-- src/evo/lineage.rs: walk_ancestors ends, and gives the ancestors.
use anser.Prelude.{
  ℕ, zero, suc, ◌+◌, ◌≤◌, ◌≡◌, ◌≢◌, refl, ap, ◌∙◌, inl, inr, String, true, false, none, some, List,
  [], ◌∷◌, ◌++◌, reverse, length, length-append, length-reverse, if◌then◌else◌, ◌==◌, string_key,
  arith, Bool-cases, Option-cases, All,
}
use mathlib.Core.List.{append_assoc}
use mathlib.Core.Path.{subst}
use anser.Evo.Lineage.{
  LineageNode, member_of, ids, find_node, Walk, walked, missing, out_of_fuel, walk, links,
  walk_ancestors,
}
use anser.Evo.Lineage.Appends.{Known, InOrder, All-append, All-reverse, All-more}

module _ {F : Type 0} where
  -- The links of the nodes that were not seen.
  abbrev weight : List (LineageNode F) → List String → ℕ
  weight [] seen = 0
  weight (n ∷ ns) seen = (if member_of n.id seen then 0 else length n.parents) + weight ns seen

  weight-cons :
      (ns : List (LineageNode F)) (x : String) (seen : List String)
      → weight ns (x ∷ seen) ≤ weight ns seen
  unfolding member_of
  weight-cons [] x seen = omega arith
  weight-cons (n ∷ ns) x seen = ground (arith, weight-cons ns x seen)

  weight-find_node :
      (ns : List (LineageNode F)) (x : String) (seen : List String) (n : LineageNode F)
      → member_of x seen ≡ false
      → find_node x ns ≡ some n
      → weight ns (x ∷ seen) + length n.parents ≤ weight ns seen
  unfolding member_of find_node
  weight-find_node [] x seen n new h = absurd (cc)
  weight-find_node (m ∷ ns) x seen n new h = elim (Bool-cases (m.id == x)) [
    | inl same ↦
        let at = (string_key.test_iff m.id x).0 same in
        let is : m ≡ n = ground arith in
        let new_m : member_of m.id seen ≡ false = ap (λ y. member_of y seen) at ∙ new in
        rw (same, new_m) (omega (arith, weight-cons ns x seen, ap (λ k. length k.parents) is))
    | inr other ↦ rw other (omega (arith, weight-find_node ns x seen n new (ground arith)))
  ]

  -- The steps of the loop, one equation each.
  module _ (nodes : List (LineageNode F)) (fuel : ℕ) (out : List (LineageNode F)) (x : String)
      (seen stack : List String) where
    pub walk_seen :
        member_of x seen ≡ true
        → walk nodes (suc fuel) out seen (x ∷ stack) ≡ walk nodes fuel out seen stack
    unfolding walk
    walk_seen h = rw (h, walk) refl

    pub walk_missing :
        member_of x seen ≡ false
        → find_node x nodes ≡ none
        → walk nodes (suc fuel) out seen (x ∷ stack) ≡ missing
    unfolding walk
    walk_missing h e = rw (h, e, walk) refl

    pub walk_found :
        (n : LineageNode F)
        → member_of x seen ≡ false
        → find_node x nodes ≡ some n
        → walk nodes (suc fuel) out seen (x ∷ stack)
          ≡ walk nodes fuel (out ++ n ∷ []) (x ∷ seen) (reverse n.parents ++ stack)
    unfolding walk
    walk_found n h e = rw (h, e, walk) refl

  pub walk_ends :
      (nodes : List (LineageNode F)) (fuel : ℕ) (out : List (LineageNode F))
      (seen stack : List String)
      → length stack + weight nodes seen ≤ fuel
      → walk nodes fuel out seen stack ≢ out_of_fuel
  walk_ends nodes fuel out seen [] le = unfold walk in λ h. cc
  walk_ends nodes zero out seen (x ∷ stack) le = absurd (omega arith)
  walk_ends nodes (suc fuel) out seen (x ∷ stack) le = elim (Bool-cases (member_of x seen)) [
    | inl h ↦
        rw (walk_seen nodes fuel out x seen stack h)
          (walk_ends nodes fuel out seen stack (omega arith))
    | inr h ↦ elim (Option-cases (find_node x nodes)) [
      | inl e ↦ rw (walk_missing nodes fuel out x seen stack h e) (λ p. cc)
      | inr (n, e) ↦ rw (walk_found nodes fuel out x seen stack n h e) (
          walk_ends nodes fuel (out ++ n ∷ []) (x ∷ seen) (reverse n.parents ++ stack) (
            omega (
              arith,
              weight-find_node nodes x seen n h e,
              length-append (reverse n.parents) stack,
              length-reverse n.parents,
            )))
    ]
  ]

  -- Every parent of a node of a lineage is a node of it.
  abbrev Closed : List (LineageNode F) → Type 0
  Closed nodes =
      (x : String) (n : LineageNode F)
      → find_node x nodes ≡ some n
      → All (Known (ids nodes)) n.parents

  known-find_node :
      (nodes : List (LineageNode F)) (x : String) → Known (ids nodes) x → find_node x nodes ≢ none
  unfolding member_of find_node
  known-find_node [] x h e = cc
  known-find_node (n ∷ ns) x h e = elim (Bool-cases (n.id == x)) [
    | inl same ↦ absurd (ground arith)
    | inr other ↦
        let apart : (x == n.id) ≡ false =
          ground (arith, string_key.test_iff x n.id, string_key.test_iff n.id x) in
        known-find_node ns x (ground arith) (ground arith)
  ]

  walk_known :
      (nodes : List (LineageNode F)) (fuel : ℕ) (out : List (LineageNode F))
      (seen stack : List String)
      → Closed nodes
      → All (Known (ids nodes)) stack
      → walk nodes fuel out seen stack ≢ missing
  walk_known nodes zero out seen [] closed k = unfold walk in λ h. cc
  walk_known nodes zero out seen (x ∷ stack) closed k = unfold walk in λ h. cc
  walk_known nodes (suc fuel) out seen [] closed k = unfold walk in λ h. cc
  walk_known nodes (suc fuel) out seen (x ∷ stack) closed (at, k) =
      elim (Bool-cases (member_of x seen)) [
        | inl h ↦
            rw (walk_seen nodes fuel out x seen stack h)
              (walk_known nodes fuel out seen stack closed k)
        | inr h ↦ elim (Option-cases (find_node x nodes)) [
          | inl e ↦ absurd (known-find_node nodes x at e)
          | inr (n, e) ↦ rw (walk_found nodes fuel out x seen stack n h e) (
              walk_known nodes fuel (out ++ n ∷ []) (x ∷ seen) (reverse n.parents ++ stack) closed (
                All-append (ids nodes) (reverse n.parents) stack
                  (All-reverse (ids nodes) n.parents (closed x n e)) k))
        ]
      ]

  InOrder-find_node :
      (before : List String) (ns : List (LineageNode F)) (x : String) (n : LineageNode F)
      → InOrder before ns
      → find_node x ns ≡ some n
      → All (Known (before ++ ids ns)) n.parents
  unfolding find_node
  InOrder-find_node before [] x n h e = absurd (cc)
  InOrder-find_node before (m ∷ ns) x n (_, known, h) e = elim (Bool-cases (m.id == x)) [
    | inl same ↦
        let is : m ≡ n = ground arith in
        subst (λ k. All (Known (before ++ m.id ∷ ids ns)) k.parents) is
          (All-more before (m.id ∷ ids ns) m.parents known)
    | inr other ↦
        subst (λ k. All (Known k) n.parents) (append_assoc before (m.id ∷ []) (ids ns))
          (InOrder-find_node (before ++ m.id ∷ []) ns x n h (ground arith))
  ]

  weight-links : (ns : List (LineageNode F)) → weight ns [] ≤ links ns
  unfolding member_of
  weight-links [] = omega arith
  weight-links (n ∷ ns) = omega (arith, weight-links ns)

  Walk-cases :
      (w : Walk F) → w ≢ missing → w ≢ out_of_fuel → (out : List (LineageNode F)) × (w ≡ walked out)
  Walk-cases (walked out) h k = (out, refl)
  Walk-cases missing h k = absurd (h refl)
  Walk-cases out_of_fuel h k = absurd (k refl)

  -- In a lineage in order the walk from a commit that is there ends, and gives a list: it neither runs
  -- for ever nor meets a parent that is missing.
  pub walk_ancestors_total :
      (nodes : List (LineageNode F)) (id : String)
      → InOrder [] nodes
      → Known (ids nodes) id
      → (out : List (LineageNode F)) × (walk_ancestors nodes id ≡ walked out)
  unfolding walk_ancestors
  walk_ancestors_total nodes id h known =
      Walk-cases (walk nodes (suc (links nodes)) [] [] (id ∷ []))
        (walk_known nodes (suc (links nodes)) [] [] (id ∷ [])
          (λ x n e. InOrder-find_node [] nodes x n h e) (known, tt))
        (walk_ends nodes (suc (links nodes)) [] [] (id ∷ []) (omega (arith, weight-links nodes)))

  -- On every lineage, in order or not, the walk ends: no cycle keeps it going.
  pub walk_ancestors_ends :
      (nodes : List (LineageNode F)) (id : String) → walk_ancestors nodes id ≢ out_of_fuel
  unfolding walk_ancestors
  walk_ancestors_ends nodes id =
      walk_ends nodes (suc (links nodes)) [] [] (id ∷ []) (omega (arith, weight-links nodes))
