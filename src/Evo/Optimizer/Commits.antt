-- ===== src/Evo/Optimizer/Commits.antt =====
-- src/evo/optimizer.rs: a commit is accepted, behind the head of the lineage.
use Prim.{tt}
use mathlib.Core.Path.{subst}
use mathlib.Core.Option.{some_inj}
use Prim.Native.Nat.{Ordering}
use anser.Prelude.{
  ◌++◌, ◌<◌, arith, ◌≢◌, ◌≤◌, ℕ, ◌≡◌, refl, ap, sym, ◌∙◌, ◌⊎◌, inl, inr, ◌↔◌, Bool, true, false,
  ◌||◌, not, Option, none, some, List, [], ◌∷◌, keep_if, Listed, Listed-keep_if, All, String,
  length, string_key, Option-cases, ◌==◌, ==_self,
}
use anser.Prelude.Text.{is_some}
use anser.Evo.Lineage.{
  LineageNode, ids, member_of, compare_fitness, max_by, max_of, head, all_parents,
}
use anser.Evo.Lineage.Appends.{Known, InOrder, add_node-InOrder}
use anser.Evo.Optimizer.{
  mean_fitness, Numbers, FitnessEntry, head_id, commit_id, commit_node, commit_artifact,
}

Listed-second : {A : Type 0} (m a b : A) (xs : List A) → Listed m (a ∷ xs) → Listed m (a ∷ b ∷ xs)
Listed-second m a b xs (inl same) = inl same
Listed-second m a b xs (inr later) = inr (inr later)

either_right : (a b : Bool) → b ≡ true → a || b ≡ true
either_right true b h = refl
either_right false b h = h

module _ {F : Type 0} (partial_cmp : F → F → Option Ordering) where
  one_of_two :
      (o : Ordering) (a b : LineageNode F)
      → ((elim o [ Ordering.gt ↦ a | _ ↦ b ]) ≡ a) ⊎ ((elim o [ Ordering.gt ↦ a | _ ↦ b ]) ≡ b)
  one_of_two Ordering.gt a b = inl refl
  one_of_two Ordering.lt a b = inr refl
  one_of_two Ordering.eq a b = inr refl

  max_by-Listed :
      (best : LineageNode F) (ns : List (LineageNode F))
      → Listed (max_by partial_cmp best ns) (best ∷ ns)
  unfolding max_by
  max_by-Listed best [] = inl refl
  max_by-Listed best (n ∷ ns) =
      elim (one_of_two (compare_fitness partial_cmp best n) (max_by partial_cmp best ns)
        (max_by partial_cmp n ns)) [
          | inl kept ↦
              subst (λ k. Listed k (best ∷ n ∷ ns)) (sym kept)
                (Listed-second (max_by partial_cmp best ns) best n ns (max_by-Listed best ns))
          | inr taken ↦ subst (λ k. Listed k (best ∷ n ∷ ns)) (sym taken) (inr (max_by-Listed n ns))
        ]

  max_of-Listed :
      (ns : List (LineageNode F)) (m : LineageNode F) → max_of partial_cmp ns ≡ some m → Listed m ns
  max_of-Listed [] m e = absurd (cc)
  max_of-Listed (n ∷ ns) m e = subst (λ k. Listed k (n ∷ ns)) (some_inj.0 e) (max_by-Listed n ns)

  head-Listed :
      (nodes : List (LineageNode F)) (h : LineageNode F)
      → head partial_cmp nodes ≡ some h
      → Listed h nodes
  unfolding head
  head-Listed nodes h e =
      let leaf = λ (n : LineageNode F). not (member_of n.id (all_parents partial_cmp nodes)) in
      let scored = λ (n : LineageNode F). is_some n.fitness in
      ((Listed-keep_if leaf h nodes).0
        ((Listed-keep_if scored h (keep_if leaf nodes)).0
          (max_of-Listed (keep_if scored (keep_if leaf nodes)) h e)).0).0

  Known-Listed :
      (nodes : List (LineageNode F)) (h : LineageNode F) → Listed h nodes → Known (ids nodes) h.id
  unfolding member_of
  Known-Listed [] h listed = elim listed [ ]
  Known-Listed (n ∷ ns) h (inl same) =
      ap (λ (k : LineageNode F). (k.id == n.id) || member_of k.id (ids ns)) same
      ∙ ap (λ b. b || member_of n.id (ids ns)) (==_self n.id)
  Known-Listed (n ∷ ns) h (inr later) =
      either_right (h.id == n.id) (member_of h.id (ids ns)) (Known-Listed ns h later)

module _ {F : Type 0} (partial_cmp : F → F → Option Ordering) (rank : LineageNode F → ℕ) where
  -- The comparison of scored nodes is that of a rank.
  abbrev pub Ranks : List (LineageNode F) → Type 0
  Ranks nodes =
      (a b : LineageNode F)
      → Listed a nodes
      → Listed b nodes
      → is_some a.fitness ≡ true
      → is_some b.fitness ≡ true
      → (compare_fitness partial_cmp a b ≡ Ordering.gt) ↔ (rank b < rank a)

  abbrev pub IsScoredLeaf : List (LineageNode F) → LineageNode F → Type 0
  IsScoredLeaf nodes m =
      (member_of m.id (all_parents partial_cmp nodes) ≡ false) × (is_some m.fitness ≡ true)

  pub record BestLeaf (nodes : List (LineageNode F)) (h : LineageNode F) : Type 0 where
    pub listed : Listed h nodes
    pub leaf : IsScoredLeaf nodes h
    pub best : (m : LineageNode F) → Listed m nodes → IsScoredLeaf nodes m → rank m ≤ rank h

  abbrev leaves : List (LineageNode F) → List (LineageNode F)
  leaves nodes =
      keep_if (λ n. is_some n.fitness)
        (keep_if (λ n. not (member_of n.id (all_parents partial_cmp nodes))) nodes)

  Listed-leaves :
      (nodes : List (LineageNode F)) (m : LineageNode F)
      → Listed m (leaves nodes) ↔ (Listed m nodes × IsScoredLeaf nodes m)
  Listed-leaves nodes m =
      let open_ends = λ (n : LineageNode F). not (member_of n.id (all_parents partial_cmp nodes)) in
      let scored = λ (n : LineageNode F). is_some n.fitness in
      let inner = Listed-keep_if open_ends m nodes in
      let outer = Listed-keep_if scored m (keep_if open_ends nodes) in
      (
        λ h.
            let (in_open, has) = outer.0 h in
            let (listed, open_end) = inner.0 in_open in
            (listed, (no_parent (member_of m.id (all_parents partial_cmp nodes)) open_end, has)),
        λ (listed, (away, has)). outer.1 (inner.1 (listed, ap not away), has),
      )
    where
      no_parent : (b : Bool) → not b ≡ true → b ≡ false
      no_parent true h = cc
      no_parent false h = refl

  abbrev RanksAll : List (LineageNode F) → Type 0
  RanksAll ns =
      (a b : LineageNode F)
      → Listed a ns
      → Listed b ns
      → (compare_fitness partial_cmp a b ≡ Ordering.gt) ↔ (rank b < rank a)

  no_less : (x y : ℕ) → ¬ (x < y) → y ≤ x
  no_less x y h = omega arith

  -- One step of the maximum, by the answer of the comparison.
  larger_of_two :
      (best n : LineageNode F) (ns : List (LineageNode F)) (o : Ordering)
      → compare_fitness partial_cmp best n ≡ o
      → (compare_fitness partial_cmp best n ≡ Ordering.gt) ↔ (rank n < rank best)
      → (max_by partial_cmp best (n ∷ ns) ≡ max_by partial_cmp best ns) × (rank n ≤ rank best)
        ⊎ (max_by partial_cmp best (n ∷ ns) ≡ max_by partial_cmp n ns) × (rank best ≤ rank n)
  unfolding max_by
  larger_of_two best n ns Ordering.gt e h =
      let less : rank n < rank best = h.0 e in
      inl (
        ap (λ o. elim o [ Ordering.gt ↦ max_by partial_cmp best ns | _ ↦ max_by partial_cmp n ns ])
            e,
        omega arith,
      )
  larger_of_two best n ns Ordering.lt e h = inr (
    ap (λ o. elim o [ Ordering.gt ↦ max_by partial_cmp best ns | _ ↦ max_by partial_cmp n ns ]) e,
    no_less (rank n) (rank best) (λ less. absurd (cc (h.1 less))),
  )
  larger_of_two best n ns Ordering.eq e h = inr (
    ap (λ o. elim o [ Ordering.gt ↦ max_by partial_cmp best ns | _ ↦ max_by partial_cmp n ns ]) e,
    no_less (rank n) (rank best) (λ less. absurd (cc (h.1 less))),
  )

  max_by-rank :
      (best : LineageNode F) (ns : List (LineageNode F))
      → RanksAll (best ∷ ns)
      → (m : LineageNode F) → Listed m (best ∷ ns)
      → rank m ≤ rank (max_by partial_cmp best ns)
  unfolding max_by
  max_by-rank best [] h m (inl same) = rw same (omega arith)
  max_by-rank best [] h m (inr later) = elim later [ ]
  max_by-rank best (n ∷ ns) h m listed =
      let at = h best n (inl refl) (inr (inl refl)) in
      elim (larger_of_two best n ns (compare_fitness partial_cmp best n) refl at) [
        | inl (same, below) ↦
            let kept =
              max_by-rank best ns (λ a b la lb.
                h a b (Listed-second a best n ns la) (Listed-second b best n ns lb)) in
            rw same (passed_over m listed below kept)
        | inr (same, below) ↦
            let kept = max_by-rank n ns (λ a b la lb. h a b (inr la) (inr lb)) in
            rw same (taken m listed below kept)
      ]
    where
      passed_over :
          (m : LineageNode F)
          → Listed m (best ∷ n ∷ ns)
          → rank n ≤ rank best
          → ((m : LineageNode F)
              → Listed m (best ∷ ns)
              → rank m ≤ rank (max_by partial_cmp best ns))
          → rank m ≤ rank (max_by partial_cmp best ns)
      passed_over m (inl same) below kept = kept m (inl same)
      passed_over m (inr (inl same)) below kept =
          let top : rank best ≤ rank (max_by partial_cmp best ns) = kept best (inl refl) in
          rw same (omega arith)
      passed_over m (inr (inr later)) below kept = kept m (inr later)

      taken :
          (m : LineageNode F)
          → Listed m (best ∷ n ∷ ns)
          → rank best ≤ rank n
          → ((m : LineageNode F) → Listed m (n ∷ ns) → rank m ≤ rank (max_by partial_cmp n ns))
          → rank m ≤ rank (max_by partial_cmp n ns)
      taken m (inr later) below kept = kept m later
      taken m (inl same) below kept =
          let top : rank n ≤ rank (max_by partial_cmp n ns) = kept n (inl refl) in
          rw same (omega arith)

  -- What a commit takes as the parents: the best scored leaf, or nothing where there is none.
  abbrev pub ParentsOf : List (LineageNode F) → List String → Type 0
  ParentsOf nodes ps =
      (ps ≡ []) × ((m : LineageNode F) → Listed m nodes → ¬ IsScoredLeaf nodes m)
      ⊎ ((h : LineageNode F) × (ps ≡ h.id ∷ []) × BestLeaf nodes h)

  max_of-ParentsOf :
      (nodes found : List (LineageNode F))
      → ((m : LineageNode F) → Listed m found ↔ (Listed m nodes × IsScoredLeaf nodes m))
      → RanksAll found
      → (max_of partial_cmp found ≡ none)
          × ((m : LineageNode F) → Listed m nodes → ¬ IsScoredLeaf nodes m)
        ⊎ ((h : LineageNode F) × (max_of partial_cmp found ≡ some h) × BestLeaf nodes h)
  max_of-ParentsOf nodes [] same ranks =
      inl (refl, λ m listed leaf. elim ((same m).1 (listed, leaf)) [ ])
  max_of-ParentsOf nodes (n ∷ ns) same ranks =
      let h = max_by partial_cmp n ns in
      let (listed, leaf) = (same h).0 (max_by-Listed partial_cmp n ns) in
      inr (
        h,
        refl,
        record {
          listed = listed;
          leaf = leaf;
          best = λ m there open_end. max_by-rank n ns ranks m ((same m).1 (there, open_end));
        },
      )

  head-ParentsOf :
      (nodes : List (LineageNode F))
      → Ranks nodes
      → (head partial_cmp nodes ≡ none)
          × ((m : LineageNode F) → Listed m nodes → ¬ IsScoredLeaf nodes m)
        ⊎ ((h : LineageNode F) × (head partial_cmp nodes ≡ some h) × BestLeaf nodes h)
  unfolding head
  head-ParentsOf nodes ranks =
      max_of-ParentsOf nodes (leaves nodes) (Listed-leaves nodes) (λ a b la lb.
        let (in_a, (_, some_a)) = (Listed-leaves nodes a).0 la in
        let (in_b, (_, some_b)) = (Listed-leaves nodes b).0 lb in ranks a b in_a in_b some_a some_b)

module _ {F : Type 0} (nums : Numbers F) where
  Known-head :
      (nodes : List (LineageNode F))
      → All (Known (ids nodes)) (head_id nums (head nums.partial_cmp nodes))
  unfolding head_id
  Known-head nodes = elim (Option-cases (head nums.partial_cmp nodes)) [
    | inl empty ↦ rw empty tt
    | inr (h, e) ↦
        rw e (Known-Listed nums.partial_cmp nodes h (head-Listed nums.partial_cmp nodes h e), tt)
  ]

  head_id-ParentsOf :
      (rank : LineageNode F → ℕ) (nodes : List (LineageNode F))
      → Ranks nums.partial_cmp rank nodes
      → ParentsOf nums.partial_cmp rank nodes (head_id nums (head nums.partial_cmp nodes))
  unfolding head_id
  head_id-ParentsOf rank nodes ranks = elim (head-ParentsOf nums.partial_cmp rank nodes ranks) [
    | inl (e, alone) ↦ inl (ap (head_id nums) e, alone)
    | inr (h, e, best) ↦ inr (h, ap (head_id nums) e, best)
  ]

  -- Where the fitness and the time of the scored nodes order them, by a rank, as they do without a NaN:
  -- a commit to a lineage in order carries the mean fitness of its entries, and its only parent is the
  -- scored leaf of the highest rank, or it has none where no leaf is scored. It is put behind all
  -- nodes if its id, from the time and the number of nodes, is new; if not, it is refused and nothing
  -- changes. The order is kept.
  pub commit_artifact-InOrder :
      (rank : LineageNode F → ℕ) (nodes : List (LineageNode F)) (artifact_ref : String)
      (entries : List (FitnessEntry F)) (now_ms : ℕ)
      → InOrder [] nodes
      → Ranks nums.partial_cmp rank nodes
      → InOrder [] (commit_artifact nums nodes artifact_ref entries now_ms).0
        × (((commit_artifact nums nodes artifact_ref entries now_ms).1 ≡ none)
            ↔ (member_of (commit_id nums now_ms (length nodes)) (ids nodes) ≡ false))
        × ((n : LineageNode F) × (n.id ≡ commit_id nums now_ms (length nodes))
            × ParentsOf nums.partial_cmp rank nodes n.parents
            × (n.fitness ≡ mean_fitness nums entries)
            × (((commit_artifact nums nodes artifact_ref entries now_ms).1 ≡ none)
                  × ((commit_artifact nums nodes artifact_ref entries now_ms).0 ≡ nodes ++ n ∷ [])
                ⊎ ((commit_artifact nums nodes artifact_ref entries now_ms).1 ≢ none)
                  × ((commit_artifact nums nodes artifact_ref entries now_ms).0 ≡ nodes)))
  unfolding commit_artifact commit_node
  commit_artifact-InOrder rank nodes artifact_ref entries now_ms h ranks =
      let node = commit_node nums nodes artifact_ref entries now_ms in
      let (kept, (to, from), placed) = add_node-InOrder node nodes h in
      (
        kept,
        (λ e. (to e).0, λ e. from (e, Known-head nodes)),
        (node, refl, head_id-ParentsOf rank nodes ranks, refl, placed),
      )
