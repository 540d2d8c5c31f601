-- ===== src/Evo/Lineage/Appends.antt =====
-- src/evo/lineage.rs: add_node keeps a lineage in order, each node behind its parents.
use anser.Prelude.{
  ◌≢◌, ◌⊎◌, ◌≡◌, refl, ap, sym, ◌∙◌, inl, inr, ◌↔◌, String, true, false, ◌||◌, none, List, [], ◌∷◌,
  ◌++◌, reverse, string_key, arith, Bool-cases, Option-cases, All,
}
use mathlib.Core.Path.{subst}
use mathlib.Core.List.{append_assoc, append-nil, reverse-cons}
use anser.Evo.Lineage.{LineageNode, member_of, ids, first_unknown, add_node}

-- A name among the ids.
abbrev pub Known : List String → String → Type 0
Known known x = member_of x known ≡ true

-- From the first node on: the id is new, and the parents stand before it.
abbrev pub InOrder : {F : Type 0} → (before : List String) → List (LineageNode F) → Type 0
InOrder before [] = Unit {0}
InOrder before (n ∷ ns) =
    (member_of n.id before ≡ false)
    × All (Known before) n.parents
    × InOrder (before ++ n.id ∷ []) ns

pub member_of-append :
    (x : String) (xs ys : List String) → member_of x (xs ++ ys) ≡ (member_of x xs || member_of x ys)
unfolding member_of
member_of-append x [] ys = refl
member_of-append x (y ∷ xs) ys = ground (arith, member_of-append x xs ys)

pub All-append :
    (known xs ys : List String)
    → All (Known known) xs
    → All (Known known) ys
    → All (Known known) (xs ++ ys)
All-append known [] ys h k = k
All-append known (x ∷ xs) ys (a, h) k = (a, All-append known xs ys h k)

pub All-reverse : (known xs : List String) → All (Known known) xs → All (Known known) (reverse xs)
All-reverse known [] h = h
All-reverse known (x ∷ xs) (a, h) =
    subst (All (Known known)) (sym (reverse-cons x xs))
      (All-append known (reverse xs) (x ∷ []) (All-reverse known xs h) (a, tt))

pub All-more :
    (before more : List String) (ps : List String)
    → All (Known before) ps
    → All (Known (before ++ more)) ps
All-more before more [] h = tt
All-more before more (p ∷ ps) (a, h) =
    (member_of-append p before more ∙ ground arith, All-more before more ps h)

first_unknown-Known :
    (known ps : List String) → first_unknown known ps ≡ none → All (Known known) ps
unfolding first_unknown
first_unknown-Known known [] h = tt
first_unknown-Known known (p ∷ ps) h = elim (Bool-cases (member_of p known)) [
  | inl there ↦ (there, first_unknown-Known known ps (ground arith))
  | inr away ↦ absurd (ground arith)
]

Known-first_unknown :
    (known ps : List String) → All (Known known) ps → first_unknown known ps ≡ none
unfolding first_unknown
Known-first_unknown known [] h = refl
Known-first_unknown known (p ∷ ps) (there, h) = rw there (Known-first_unknown known ps h)

module _ {F : Type 0} where
  InOrder-append :
      (before : List String) (ns : List (LineageNode F)) (n : LineageNode F)
      → InOrder before ns
      → member_of n.id (before ++ ids ns) ≡ false
      → All (Known (before ++ ids ns)) n.parents
      → InOrder before (ns ++ n ∷ [])
  InOrder-append before [] n h new known =
      let at = append-nil before in
      (ap (member_of n.id) (sym at) ∙ new, subst (λ b. All (Known b) n.parents) at known, tt)
  InOrder-append before (m ∷ ns) n (new_m, known_m, h) new known =
      let at = append_assoc before (m.id ∷ []) (ids ns) in
      (
        new_m,
        known_m,
        InOrder-append (before ++ m.id ∷ []) ns n h (ap (member_of n.id) at ∙ new)
            (subst (λ b. All (Known b) n.parents) (sym at) known),
      )

  -- An append that succeeds puts the node behind all others, and one that is refused changes nothing.
  -- Both keep the order in which every node has a new id and stands behind all its parents; an append
  -- to a lineage in order succeeds exactly if it keeps to that order.
  pub add_node-InOrder :
      (node : LineageNode F) (nodes : List (LineageNode F))
      → InOrder [] nodes
      → InOrder [] (add_node node nodes).0
        × (((add_node node nodes).1 ≡ none)
            ↔ ((member_of node.id (ids nodes) ≡ false) × All (Known (ids nodes)) node.parents))
        × (((add_node node nodes).1 ≡ none) × ((add_node node nodes).0 ≡ nodes ++ node ∷ [])
            ⊎ ((add_node node nodes).1 ≢ none) × ((add_node node nodes).0 ≡ nodes))
  unfolding add_node
  add_node-InOrder node nodes h = elim (Bool-cases (member_of node.id (ids nodes))) [
    | inl there ↦
        rw there (h, (λ e. absurd (cc), λ (e, _). absurd (cc)), inr (λ e. absurd (cc), refl))
    | inr new ↦ elim (Option-cases (first_unknown (ids nodes) node.parents)) [
      | inl all ↦
          let known = first_unknown-Known (ids nodes) node.parents all in
          rw (new, all)
            (
              InOrder-append [] nodes node h new known,
              (λ _. (refl, known), λ _. refl),
              inl (refl, refl),
            )
      | inr (parent, e) ↦
          rw (new, e)
            (
              h,
              (
                λ same. absurd (cc),
                λ (_, known). absurd (cc (Known-first_unknown (ids nodes) node.parents known, e)),
              ),
              inr (λ same. absurd (cc), refl),
            )
    ]
  ]
