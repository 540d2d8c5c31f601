-- ===== src/Prelude/Lines/Whole.antt =====
-- The lines of a text, and reading them one after the other.
use Prim.Native.Nat.{ℕ}
use mathlib.Core.Path.{◌≡◌, refl, sym, ap, ◌∙◌}
use mathlib.Core.Logic.{inl, inr}
use mathlib.Core.Bool.{true, false}
use mathlib.Core.List.{List, [], ◌∷◌, ◌++◌, append-nil, append_assoc}
use anser.Prelude.Tests.{if◌then◌else◌, nat_eqb, nat_eqb_iff, Bool-cases}
use anser.Prelude.Text.{Text}
use anser.Prelude.Lines.{Flow, go, and_then, scan}
use anser.Prelude.Lines.Cuts.{and_then_assoc, and_then_cong, scan_newline, scan_other}

-- The lines that a newline ends, the first one behind `cur`.
unfoldable pub whole_lines : (cur text : Text) → List Text
whole_lines cur [] = []
whole_lines cur (c ∷ cs) =
    let onward = whole_lines [] cs in
    let rest = whole_lines (cur ++ c ∷ []) cs in if nat_eqb c 10 then cur ∷ onward else rest

-- What stands behind the last newline.
unfoldable pub last_line : (cur text : Text) → Text
last_line cur [] = cur
last_line cur (c ∷ cs) =
    let onward = last_line [] cs in
    let rest = last_line (cur ++ c ∷ []) cs in if nat_eqb c 10 then onward else rest

module _ (cur cs : Text) (c : ℕ) where
  whole_lines_newline : nat_eqb c 10 ≡ true → whole_lines cur (c ∷ cs) ≡ cur ∷ whole_lines [] cs
  unfolding whole_lines
  whole_lines_newline same = rw (same, whole_lines) refl

  whole_lines_other :
      nat_eqb c 10 ≡ false → whole_lines cur (c ∷ cs) ≡ whole_lines (cur ++ c ∷ []) cs
  unfolding whole_lines
  whole_lines_other other = rw (other, whole_lines) refl

  last_line_newline : nat_eqb c 10 ≡ true → last_line cur (c ∷ cs) ≡ last_line [] cs
  unfolding last_line
  last_line_newline same = rw (same, last_line) refl

  last_line_other : nat_eqb c 10 ≡ false → last_line cur (c ∷ cs) ≡ last_line (cur ++ c ∷ []) cs
  unfolding last_line
  last_line_other other = rw (other, last_line) refl

module _ {S R : Type 0} (handle : Text → S → Flow S R) where
  -- Line after line, until one of them stops.
  unfoldable pub fold_lines : List Text → S → Flow S R
  fold_lines [] s = go s
  fold_lines (line ∷ lines) s = and_then (handle line s) (λ t. fold_lines lines t)

  pub scan-fold_lines :
      (cur text : Text) (s : S)
      → scan handle cur text s
        ≡ and_then (fold_lines (whole_lines cur text) s) (λ t. go (last_line cur text, t))
  unfolding scan fold_lines whole_lines last_line
  scan-fold_lines cur [] s = refl
  scan-fold_lines cur (c ∷ cs) s = elim (Bool-cases (nat_eqb c 10)) [
    | inl same ↦
        rw
          (
            scan_newline handle cur cs s c same,
            whole_lines_newline cur cs c same,
            last_line_newline cur cs c same,
          )
          (and_then_cong (handle cur s) _ _ (λ t. scan-fold_lines [] cs t)
            ∙ sym (and_then_assoc (handle cur s) _ _))
    | inr other ↦
        rw
          (
            scan_other handle cur cs s c other,
            whole_lines_other cur cs c other,
            last_line_other cur cs c other,
          )
          (scan-fold_lines (cur ++ c ∷ []) cs s)
  ]

unfoldable pub unlines : List Text → Text
unlines [] = []
unlines (line ∷ lines) = line ++ 10 ∷ [] ++ unlines lines

-- The lines and the rest are the text.
pub unlines-whole_lines :
    (cur text : Text) → unlines (whole_lines cur text) ++ last_line cur text ≡ cur ++ text
unfolding unlines whole_lines last_line
unlines-whole_lines cur [] = sym (append-nil cur)
unlines-whole_lines cur (c ∷ cs) = elim (Bool-cases (nat_eqb c 10)) [
  | inl same ↦
      rw (whole_lines_newline cur cs c same, last_line_newline cur cs c same)
        (append_assoc (cur ++ 10 ∷ []) (unlines (whole_lines [] cs)) (last_line [] cs)
          ∙ ap (λ t. cur ++ 10 ∷ [] ++ t) (unlines-whole_lines [] cs)
          ∙ append_assoc cur (10 ∷ []) cs
          ∙ ap (λ n. cur ++ n ∷ cs) (sym ((nat_eqb_iff c 10).0 same)))
  | inr other ↦
      rw (whole_lines_other cur cs c other, last_line_other cur cs c other)
        (unlines-whole_lines (cur ++ c ∷ []) cs ∙ append_assoc cur (c ∷ []) cs)
]
