-- ===== src/Evo/Lineage/Ancestry.antt =====
-- src/evo/lineage.rs: walk_ancestors gives the ancestors of a commit and nothing else.
use anser.Prelude.{
  ℕ, zero, suc, ◌≡◌, refl, ap, sym, ◌∙◌, ◌⊎◌, inl, inr, String, true, some, List, [], ◌∷◌, ◌++◌,
  reverse, ◌==◌, string_key, arith, Bool-cases, Option-cases, Listed, ==_self,
}
use mathlib.Core.List.{reverse-cons}
use mathlib.Core.Path.{subst}
use anser.Evo.Lineage.{LineageNode, member_of, find_node, walked, walk, links, walk_ancestors}
use anser.Evo.Lineage.Appends.{Known, member_of-append}
use anser.Evo.Lineage.Walks.{walk_seen, walk_missing, walk_found}

nothing : (x : String) → ¬ Known [] x
unfolding member_of
nothing x h = cc

-- The commits that one leads back to.
pub data Reach {F : Type 0} (nodes : List (LineageNode F)) (id : String) : String → Type 0 where
  here : Reach nodes id id
  parent :
      {x p : String} {n : LineageNode F}
      → Reach nodes id x
      → find_node x nodes ≡ some n
      → Known n.parents p
      → Reach nodes id p

member_of-reverse : (x : String) (xs : List String) → member_of x (reverse xs) ≡ member_of x xs
unfolding member_of
member_of-reverse x [] = refl
member_of-reverse x (y ∷ xs) = ground (
  arith,
  ap (member_of x) (reverse-cons y xs),
  member_of-append x (reverse xs) (y ∷ []),
  member_of-reverse x xs,
)

Known-cases : (x y : String) (ys : List String) → Known (y ∷ ys) x → (x ≡ y) ⊎ Known ys x
unfolding member_of
Known-cases x y ys h = elim (Bool-cases (x == y)) [
  | inl same ↦ inl ((string_key.test_iff x y).0 same)
  | inr other ↦ inr (ground arith)
]

Known-tail : (x y : String) (ys : List String) → Known ys x → Known (y ∷ ys) x
unfolding member_of
Known-tail x y ys h = ground arith

Known-head : (x : String) (xs : List String) → Known (x ∷ xs) x
unfolding member_of
Known-head x xs = rw (==_self x) refl

Known-append : (x : String) (xs ys : List String) → Known xs x ⊎ Known ys x → Known (xs ++ ys) x
Known-append x xs ys (inl h) = member_of-append x xs ys ∙ ground arith
Known-append x xs ys (inr h) = member_of-append x xs ys ∙ ground arith

Known-append_cases :
    (x : String) (xs ys : List String) → Known (xs ++ ys) x → Known xs x ⊎ Known ys x
Known-append_cases x xs ys h = elim (Bool-cases (member_of x xs)) [
  | inl e ↦ inl e
  | inr e ↦ inr (ground (arith, member_of-append x xs ys))
]

Listed-snoc : {A : Type 0} (a x : A) (xs : List A) → Listed a (xs ++ x ∷ []) → Listed a xs ⊎ (a ≡ x)
Listed-snoc a x [] (inl e) = inr e
Listed-snoc a x [] (inr h) = absurd h
Listed-snoc a x (y ∷ xs) (inl e) = inl (inl e)
Listed-snoc a x (y ∷ xs) (inr h) = elim (Listed-snoc a x xs h) [
  | inl there ↦ inl (inr there)
  | inr e ↦ inr e
]

Listed-append :
    {A : Type 0} (a x : A) (xs : List A) → Listed a xs ⊎ (a ≡ x) → Listed a (xs ++ x ∷ [])
Listed-append a x [] (inl h) = absurd h
Listed-append a x [] (inr e) = inl e
Listed-append a x (y ∷ xs) (inl (inl e)) = inl e
Listed-append a x (y ∷ xs) (inl (inr h)) = inr (Listed-append a x xs (inl h))
Listed-append a x (y ∷ xs) (inr e) = inr (Listed-append a x xs (inr e))

module _ {F : Type 0} where
  find_node-id :
      (ns : List (LineageNode F)) (x : String) (n : LineageNode F)
      → find_node x ns ≡ some n
      → n.id ≡ x
  unfolding find_node
  find_node-id [] x n h = absurd (cc)
  find_node-id (m ∷ ns) x n h = elim (Bool-cases (m.id == x)) [
    | inl same ↦
        let is : m ≡ n = ground arith in
        ap (λ k. k.id) (sym is) ∙ (string_key.test_iff m.id x).0 same
    | inr other ↦ find_node-id ns x n (ground arith)
  ]

  module _ (nodes : List (LineageNode F)) (id : String) where
    -- A commit that was seen is in the output, with its parents seen or waiting.
    abbrev Visited : List (LineageNode F) → (seen stack : List String) → String → Type 0
    Visited out seen stack x =
        (n : LineageNode F) × (find_node x nodes ≡ some n)
        × Listed n out
        × ((p : String) → Known n.parents p → Known seen p ⊎ Known stack p)

    record Explores (out : List (LineageNode F)) (seen stack : List String) : Type 0 where
      found : (n : LineageNode F) → Listed n out → Reach nodes id n.id
      waiting : (x : String) → Known stack x → Reach nodes id x
      visited : (x : String) → Known seen x → Visited out seen stack x
      start : Known seen id ⊎ Known stack id

    Explores-seen :
        (out : List (LineageNode F)) (x : String) (seen stack : List String)
        → member_of x seen ≡ true
        → Explores out seen (x ∷ stack)
        → Explores out seen stack
    Explores-seen out x seen stack h i = record {
      found = i.found;
      waiting = λ y k. i.waiting y (Known-tail y x stack k);
      visited = λ y k. let (n, e, l, ps) = i.visited y k in (n, e, l, λ p kp. down p (ps p kp));
      start = down id i.start;
    }
      where
        down : (p : String) → Known seen p ⊎ Known (x ∷ stack) p → Known seen p ⊎ Known stack p
        down p (inl k) = inl k
        down p (inr k) = elim (Known-cases p x stack k) [
          | inl same ↦ inl (ap (λ y. member_of y seen) same ∙ h)
          | inr there ↦ inr there
        ]

    Explores-found :
        (out : List (LineageNode F)) (x : String) (seen stack : List String) (n : LineageNode F)
        → find_node x nodes ≡ some n
        → Explores out seen (x ∷ stack)
        → Explores (out ++ n ∷ []) (x ∷ seen) (reverse n.parents ++ stack)
    Explores-found out x seen stack n e i = record {
      found = λ m l. elim (Listed-snoc m n out l) [
        | inl old ↦ i.found m old
        | inr same ↦
            subst (Reach nodes id) (sym (ap (λ k. k.id) same ∙ find_node-id nodes x n e)) reach_x
      ];
      waiting = λ y k. elim (Known-append_cases y (reverse n.parents) stack k) [
        | inl up ↦ parent reach_x e (sym (member_of-reverse y n.parents) ∙ up)
        | inr old ↦ i.waiting y (Known-tail y x stack old)
      ];
      visited = λ y k. elim (Known-cases y x seen k) [
        | inl same ↦ (
          n,
          ap (λ z. find_node z nodes) same ∙ e,
          Listed-append n n out (inr refl),
          λ p kp.
              inr (
                Known-append p (reverse n.parents) stack
                  (inl (member_of-reverse p n.parents ∙ kp))),
        )
        | inr old ↦
            let (m, at, l, ps) = i.visited y old in
            (m, at, Listed-append m n out (inl l), λ p kp. onward p (ps p kp))
      ];
      start = onward id i.start;
    }
      where
        reach_x : Reach nodes id x
        reach_x = i.waiting x (Known-head x stack)

        onward :
            (p : String)
            → Known seen p ⊎ Known (x ∷ stack) p
            → Known (x ∷ seen) p ⊎ Known (reverse n.parents ++ stack) p
        onward p (inl k) = inl (Known-tail p x seen k)
        onward p (inr k) = elim (Known-cases p x stack k) [
          | inl same ↦ inl (subst (Known (x ∷ seen)) (sym same) (Known-head x seen))
          | inr there ↦ inr (Known-append p (reverse n.parents) stack (inr there))
        ]

    walked_all :
        (fuel : ℕ) (out result : List (LineageNode F)) (seen : List String)
        → walk nodes fuel out seen [] ≡ walked result
        → out ≡ result
    unfolding walk
    walked_all zero out result seen h = ground arith
    walked_all (suc fuel) out result seen h = ground arith

    -- What the loop gives from a state that explores.
    walk-Explores :
        (fuel : ℕ) (out result : List (LineageNode F)) (seen stack : List String)
        → Explores out seen stack
        → walk nodes fuel out seen stack ≡ walked result
        → (last : List String) × Explores result last []
    walk-Explores fuel out result seen [] i h =
        (seen, subst (λ r. Explores r seen []) (walked_all fuel out result seen h) i)
    walk-Explores zero out result seen (x ∷ stack) i h = absurd (unfold walk in cc)
    walk-Explores (suc fuel) out result seen (x ∷ stack) i h =
        elim (Bool-cases (member_of x seen)) [
          | inl old ↦
              walk-Explores fuel out result seen stack (Explores-seen out x seen stack old i)
                (sym (walk_seen nodes fuel out x seen stack old) ∙ h)
          | inr new ↦ elim (Option-cases (find_node x nodes)) [
            | inl e ↦ absurd (cc (walk_missing nodes fuel out x seen stack new e, h))
            | inr (n, e) ↦
                walk-Explores fuel (out ++ n ∷ []) result (x ∷ seen) (reverse n.parents ++ stack)
                  (Explores-found out x seen stack n e i)
                  (sym (walk_found nodes fuel out x seen stack n new e) ∙ h)
          ]
        ]

    -- Where nothing waits, what was seen is closed under parents.
    seen-Reach :
        (out : List (LineageNode F)) (seen : List String)
        → Explores out seen []
        → (x : String) → Reach nodes id x
        → Known seen x
    seen-Reach out seen i x here = elim i.start [ inl k ↦ k | inr k ↦ absurd (nothing id k) ]
    seen-Reach out seen i p (parent {x} {n} r e k) =
        let (m, at, _, closed) = i.visited x (seen-Reach out seen i x r) in
        let same : n ≡ m = ground (arith, sym e ∙ at) in
        elim (closed p (subst (λ j. Known j.parents p) same k)) [
          | inl old ↦ old
          | inr waits ↦ absurd (nothing p waits)
        ]

  -- The commits that walk_ancestors gives are the ancestors of the commit, itself included: each one
  -- of them is reached over parents, and whatever is reached is among them.
  pub walk_ancestors-Reach :
      (nodes : List (LineageNode F)) (id : String) (result : List (LineageNode F))
      → walk_ancestors nodes id ≡ walked result
      → ((n : LineageNode F) → Listed n result → Reach nodes id n.id)
        × ((x : String)
            → Reach nodes id x
            → (n : LineageNode F) × (find_node x nodes ≡ some n) × Listed n result)
  unfolding walk_ancestors
  walk_ancestors-Reach nodes id result h =
      let (seen, i) =
        walk-Explores nodes id (suc (links nodes)) [] result [] (id ∷ [])
          (record {
            found = λ n l. absurd l;
            waiting = λ x k. elim (Known-cases x id [] k) [
              | inl same ↦ subst (Reach nodes id) (sym same) here
              | inr k ↦ absurd (nothing x k)
            ];
            visited = λ x k. absurd (nothing x k);
            start = inr (Known-head id []);
          })
          h in
      (
        i.found,
        λ x r. let (n, e, l, _) = i.visited x (seen-Reach nodes id result seen i x r) in (n, e, l),
      )
