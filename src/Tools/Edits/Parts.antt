-- ===== src/Tools/Edits/Parts.antt =====
-- src/tools/fs.rs: the parts into which the occurrences of a target cut a text.
use anser.Prelude.{
  ℕ, zero, suc, ◌≤◌, ◌<◌, ◌≡◌, ◌≢◌, refl, ap, sym, ◌∙◌, ◌⊎◌, inl, inr, false, none, some, List, [],
  ◌∷◌, ◌++◌, length, length-append, nat_eqb, nat_key, arith, Bool-cases, Option-cases, nat_eqb_iff,
}
use mathlib.Core.List.{append_assoc}
use anser.Prelude.Text.{text_key, Text, strip_prefix}
use anser.Tools.Edits.{split_first, contains, split_on, joined, count}

pub strip_prefix_parts :
    (text target after : Text) → strip_prefix text target ≡ some after → text ≡ target ++ after
unfolding strip_prefix
strip_prefix_parts text [] after h = ground arith
strip_prefix_parts [] (p ∷ ps) after h = absurd (cc)
strip_prefix_parts (c ∷ cs) (p ∷ ps) after h = elim (Bool-cases (nat_eqb c p)) [
  | inl same ↦
      ap (λ x. x ∷ cs) ((nat_eqb_iff c p).0 same)
      ∙ ap (λ t. p ∷ t) (strip_prefix_parts cs ps after (ground arith))
  | inr other ↦ absurd (ground arith)
]

pub split_first_cases :
    (target cs before after : Text) (c : ℕ)
    → split_first target (c ∷ cs) ≡ some (before, after)
    → ((before ≡ []) × (strip_prefix (c ∷ cs) target ≡ some after))
      ⊎ ((strip_prefix (c ∷ cs) target ≡ none)
          × (b : Text) × (before ≡ c ∷ b)
          × (split_first target cs ≡ some (b, after)))
unfolding split_first
split_first_cases target cs before after c h = elim (Option-cases (strip_prefix (c ∷ cs) target)) [
  | inr (a, here) ↦ let e = rw (here, split_first) at h in inl (ground arith, here ∙ ground arith)
  | inl away ↦ elim (Option-cases (split_first target cs)) [
    | inl nothing ↦ absurd (let e = rw (away, nothing, split_first) at h in cc)
    | inr ((b, a), later) ↦
        let e = rw (away, later, split_first) at h in
        inr (away, b, ground arith, later ∙ ground arith)
  ]
]

-- An occurrence, in its place.
pub split_first_parts :
    (target text before after : Text)
    → split_first target text ≡ some (before, after)
    → text ≡ before ++ target ++ after
unfolding split_first strip_prefix
split_first_parts [] [] before after h = ground arith
split_first_parts (p ∷ ps) [] before after h = absurd (cc)
split_first_parts target (c ∷ cs) before after h =
    elim (split_first_cases target cs before after c h) [
      | inl (first, here) ↦ rw first (strip_prefix_parts (c ∷ cs) target after here)
      | inr (_, b, first, later) ↦
          rw first (ap (λ t. c ∷ t) (split_first_parts target cs b after later))
    ]

pub joined-cons :
    (between t : Text) (ts : List Text)
    → ts ≢ []
    → joined between (t ∷ ts) ≡ t ++ between ++ joined between ts
unfolding joined
joined-cons between t [] h = absurd (h refl)
joined-cons between t (u ∷ ts) h = refl

pub split_on-ne-nil : (fuel : ℕ) (target text : Text) → split_on fuel target text ≢ []
unfolding split_on
split_on-ne-nil zero target text h = cc
split_on-ne-nil (suc fuel) target text h = elim (Option-cases (split_first target text)) [
  | inl e ↦ let e2 = rw (e, split_on) at h in cc
  | inr ((b, a), e) ↦ let e2 = rw (e, split_on) at h in cc
]

-- The parts with the target between them are the text.
pub joined-split_on :
    (fuel : ℕ) (target text : Text) → joined target (split_on fuel target text) ≡ text
unfolding split_on
joined-split_on zero target text = unfold joined in refl
joined-split_on (suc fuel) target text = elim (Option-cases (split_first target text)) [
  | inl e ↦ rw (e, split_on) (unfold joined in refl)
  | inr ((b, a), e) ↦
      rw (e, split_on)
        (joined-cons target b (split_on fuel target a) (split_on-ne-nil fuel target a)
          ∙ ap (λ t. b ++ target ++ t) (joined-split_on fuel target a)
          ∙ sym (split_first_parts target text b a e))
]

-- Parts that do not hold the target.
abbrev pub Free : Text → List Text → Type 0
Free target [] = Unit {0}
Free target (t ∷ ts) = (contains t target ≡ false) × Free target ts

pub strip_prefix-append :
    (text target after rest : Text)
    → strip_prefix text target ≡ some after
    → strip_prefix (text ++ rest) target ≡ some (after ++ rest)
unfolding strip_prefix
strip_prefix-append text [] after rest h = ground arith
strip_prefix-append [] (p ∷ ps) after rest h = absurd (cc)
strip_prefix-append (c ∷ cs) (p ∷ ps) after rest h = elim (Bool-cases (nat_eqb c p)) [
  | inl same ↦ rw same (strip_prefix-append cs ps after rest (ground arith))
  | inr other ↦ absurd (ground arith)
]

pub split_first-none :
    (c p : ℕ) (cs ps : Text)
    → strip_prefix (c ∷ cs) (p ∷ ps) ≡ none
    → split_first (p ∷ ps) cs ≡ none
    → split_first (p ∷ ps) (c ∷ cs) ≡ none
unfolding split_first
split_first-none c p cs ps here later = rw (here, later, split_first) refl

pub prefix_away :
    (c p : ℕ) (cs ps b after : Text)
    → strip_prefix (c ∷ cs) (p ∷ ps) ≡ none
    → split_first (p ∷ ps) cs ≡ some (b, after)
    → strip_prefix (c ∷ b) (p ∷ ps) ≡ none
prefix_away c p cs ps b after away later = elim (Option-cases (strip_prefix (c ∷ b) (p ∷ ps))) [
  | inl e ↦ e
  | inr (a, e) ↦
      let longer = strip_prefix-append (c ∷ b) (p ∷ ps) a (p ∷ ps ++ after) e in
      let whole = split_first_parts (p ∷ ps) cs b after later ∙ append_assoc b (p ∷ ps) after in
      absurd (cc (away, longer, whole))
]

-- Nothing that stands before the first occurrence holds one.
pub before_free :
    (p : ℕ) (ps text before after : Text)
    → split_first (p ∷ ps) text ≡ some (before, after)
    → split_first (p ∷ ps) before ≡ none
before_free p ps [] before after h = absurd (unfold split_first in unfold strip_prefix in cc)
before_free p ps (c ∷ cs) before after h = elim (split_first_cases (p ∷ ps) cs before after c h) [
  | inl (first, here) ↦ rw first (unfold split_first in unfold strip_prefix in refl)
  | inr (away, b, first, later) ↦ rw first (
      split_first-none c p b ps (prefix_away c p cs ps b after away later)
        (before_free p ps cs b after later))
]

pub length-split_first :
    (p : ℕ) (ps text before after : Text)
    → split_first (p ∷ ps) text ≡ some (before, after)
    → length after < length text
length-split_first p ps text before after h = omega (
  arith,
  ap length (split_first_parts (p ∷ ps) text before after h),
  length-append (before ++ p ∷ ps) after,
  length-append before (p ∷ ps),
)

pub contains-none :
    (target text : Text) → split_first target text ≡ none → contains text target ≡ false
unfolding contains
contains-none target text h = rw h refl

-- With fuel for every character no part holds the target.
pub Free-split_on :
    (fuel p : ℕ) (ps text : Text) → length text ≤ fuel → Free (p ∷ ps) (split_on fuel (p ∷ ps) text)
unfolding split_on
Free-split_on zero p ps [] le =
    (contains-none (p ∷ ps) [] (unfold split_first in unfold strip_prefix in refl), tt)
Free-split_on zero p ps (c ∷ cs) le = absurd (omega arith)
Free-split_on (suc fuel) p ps text le = elim (Option-cases (split_first (p ∷ ps) text)) [
  | inl e ↦ rw (e, split_on) (contains-none (p ∷ ps) text e, tt)
  | inr ((b, a), e) ↦
      rw (e, split_on)
        (
          contains-none (p ∷ ps) b (before_free p ps text b a e),
          Free-split_on fuel p ps a (omega (arith, length-split_first p ps text b a e)),
        )
]

pub length-split_on :
    (text target : Text) → length (split_on (length text) target text) ≡ suc (count text target)
unfolding count
length-split_on text target =
    parts (split_on (length text) target text) (split_on-ne-nil (length text) target text)
  where
    parts :
        (ts : List Text) → ts ≢ [] → length ts ≡ suc (elim ts [ [] ↦ 0 | t ∷ rest ↦ length rest ])
    parts [] h = absurd (h refl)
    parts (t ∷ rest) h = refl
