-- ===== src/Prelude/Lists.antt =====
-- Lists measured by native numbers, and predicates on all members.
use Prim.Native.Nat.{ℕ, suc, ◌+◌}
use mathlib.Core.Path.{◌≡◌, refl, ap, ◌∙◌}
use mathlib.Core.Logic.{◌⊎◌, ◌↔◌, inl, inr}
use mathlib.Core.Bool.{Bool, true, false}
use anser.Prelude.Tests.{if◌then◌else◌, Bool-cases}
use mathlib.Core.List.{List, [], ◌∷◌, ◌++◌, map, reverse, reverse-cons}
use native.Mathlib.Omega.{arith}

module _ {ℓ} {A : Type ℓ} where
  abbrev pub length : List A → ℕ
  length [] = 0
  length (x ∷ xs) = suc (length xs)

  pub length-append : (xs ys : List A) → length (xs ++ ys) ≡ length xs + length ys
  length-append [] ys = omega arith
  length-append (x ∷ xs) ys = omega (arith, length-append xs ys)

  pub length-reverse : (xs : List A) → length (reverse xs) ≡ length xs
  length-reverse [] = refl
  length-reverse (x ∷ xs) =
      omega (
        arith,
        ap length (reverse-cons x xs),
        length-append (reverse xs) (x ∷ []),
        length-reverse xs,
      )

module _ {ℓ κ} {A : Type ℓ} {B : Type κ} where
  pub length-map : (f : A → B) (xs : List A) → length (map f xs) ≡ length xs
  length-map f [] = refl
  length-map f (x ∷ xs) = ap suc (length-map f xs)

abbrev pub All {ℓ κ} : {A : Type ℓ} → (A → Type κ) → List A → Type κ
All P [] = Unit
All P (x ∷ xs) = P x × All P xs

-- A list holds a member.
abbrev pub Listed : {A : Type 0} → A → List A → Type 0
Listed a [] = ⊥
Listed a (x ∷ xs) = (a ≡ x) ⊎ Listed a xs

-- `filter`, and a loop that goes on to the next entry where a test fails.
abbrev pub keep_if : {A : Type 0} → (A → Bool) → List A → List A
keep_if p [] = []
keep_if p (x ∷ xs) = let rest = keep_if p xs in if p x then x ∷ rest else rest

module _ {A : Type 0} (p : A → Bool) (a : A) where
  kept_first :
      (x : A) (xs : List A)
      → (Listed a (keep_if p xs) ↔ (Listed a xs × (p a ≡ true)))
      → p x ≡ true
      → ((a ≡ x) ⊎ Listed a (keep_if p xs)) ↔ (((a ≡ x) ⊎ Listed a xs) × (p a ≡ true))
  kept_first x xs (to, from) e = (into, out)
    where
      into : (a ≡ x) ⊎ Listed a (keep_if p xs) → ((a ≡ x) ⊎ Listed a xs) × (p a ≡ true)
      into (inl at) = (inl at, ap p at ∙ e)
      into (inr h) = (inr (to h).0, (to h).1)

      out : ((a ≡ x) ⊎ Listed a xs) × (p a ≡ true) → (a ≡ x) ⊎ Listed a (keep_if p xs)
      out (inl at, passes) = inl at
      out (inr held, passes) = inr (from (held, passes))

  kept_rest :
      (x : A) (xs : List A)
      → (Listed a (keep_if p xs) ↔ (Listed a xs × (p a ≡ true)))
      → p x ≡ false
      → Listed a (keep_if p xs) ↔ (((a ≡ x) ⊎ Listed a xs) × (p a ≡ true))
  kept_rest x xs (to, from) e = (λ h. (inr (to h).0, (to h).1), out)
    where
      out : ((a ≡ x) ⊎ Listed a xs) × (p a ≡ true) → Listed a (keep_if p xs)
      out (inl at, passes) = absurd (ground (arith, ap p at))
      out (inr held, passes) = from (held, passes)

  -- The members of a filtered list.
  pub Listed-keep_if : (xs : List A) → Listed a (keep_if p xs) ↔ (Listed a xs × (p a ≡ true))
  Listed-keep_if [] = (λ h. elim h [ ], λ h. elim h.0 [ ])
  Listed-keep_if (x ∷ xs) = elim (Bool-cases (p x)) [
    | inl e ↦ rw e (kept_first x xs (Listed-keep_if xs) e)
    | inr e ↦ rw e (kept_rest x xs (Listed-keep_if xs) e)
  ]
