-- ===== src/Prelude/Lines/Cuts.antt =====
-- The loop over a buffer of lines does not see how its text was cut into chunks.
use Prim.Native.Nat.{ℕ, zero, suc, ◌<◌}
use mathlib.Core.Path.{◌≡◌, refl, ap, sym, ◌∙◌, subst}
use mathlib.Core.Logic.{◌⊎◌, inl, inr}
use mathlib.Core.Bool.{true, false}
use mathlib.Core.Option.{none, some}
use mathlib.Core.List.{List, [], ◌∷◌, ◌++◌, append_assoc, append-nil}
use native.Mathlib.Omega.{arith}
use anser.Prelude.Tests.{nat_eqb, Bool-cases, Option-cases}
use anser.Prelude.Lists.{length}
use anser.Prelude.Text.{Text}
use anser.Prelude.Lines.{Flow, go, stop, and_then, split_line, drain, feed_line, feed_all, scan}

unfoldable pub concat : List Text → Text
concat [] = []
concat (t ∷ ts) = t ++ concat ts

-- A text without a newline.
abbrev pub IsOpen : Text → Type 0
IsOpen t = split_line t ≡ none

pub and_then_assoc :
    {S T U R : Type 0} (m : Flow S R) (f : S → Flow T R) (g : T → Flow U R)
    → and_then (and_then m f) g ≡ and_then m (λ s. and_then (f s) g)
and_then_assoc (go s) f g = refl
and_then_assoc (stop r) f g = refl

pub and_then_cong :
    {S T R : Type 0} (m : Flow S R) (f g : S → Flow T R)
    → ((s : S) → f s ≡ g s)
    → and_then m f ≡ and_then m g
and_then_cong (go s) f g h = h s
and_then_cong (stop r) f g h = refl

pub go_of_and_then :
    {S T R : Type 0} (m : Flow S R) (f : S → Flow T R) (t : T)
    → and_then m f ≡ go t
    → (s : S) × (m ≡ go s) × (f s ≡ go t)
go_of_and_then (go s) f t h = (s, refl, h)
go_of_and_then (stop r) f t h = absurd (cc)

split_line-none :
    (c : ℕ) (cs : Text) → nat_eqb c 10 ≡ false → split_line cs ≡ none → split_line (c ∷ cs) ≡ none
unfolding split_line
split_line-none c cs e n = rw (e, n) refl

split_line-some :
    (c : ℕ) (cs line after : Text)
    → nat_eqb c 10 ≡ false
    → split_line cs ≡ some (line, after)
    → split_line (c ∷ cs) ≡ some (c ∷ line, after)
unfolding split_line
split_line-some c cs line after e n = rw (e, n) refl

pub IsOpen-tail : (c : ℕ) (cs : Text) → IsOpen (c ∷ cs) → (nat_eqb c 10 ≡ false) × IsOpen cs
unfolding split_line
IsOpen-tail c cs h = elim (Bool-cases (nat_eqb c 10)) [
  | inl e ↦ absurd (ground arith)
  | inr e ↦ elim (Option-cases (split_line cs)) [
    | inl n ↦ (e, n)
    | inr ((line, after), n) ↦ absurd (cc (split_line-some c cs line after e n, h))
  ]
]

IsOpen-snoc : (cur : Text) (c : ℕ) → IsOpen cur → nat_eqb c 10 ≡ false → IsOpen (cur ++ c ∷ [])
IsOpen-snoc [] c h e = split_line-none c [] e (unfold split_line in refl)
IsOpen-snoc (d ∷ cur) c h e =
    let (other, rest) = IsOpen-tail d cur h in
    split_line-none d (cur ++ c ∷ []) other (IsOpen-snoc cur c rest e)

-- A line starts with what stands before it.
split_line_cases :
    (c : ℕ) (cs line after : Text)
    → split_line (c ∷ cs) ≡ some (line, after)
    → ((nat_eqb c 10 ≡ true) × (line ≡ []) × (after ≡ cs))
      ⊎ ((nat_eqb c 10 ≡ false) × (l : Text) × (split_line cs ≡ some (l, after)) × (line ≡ c ∷ l))
unfolding split_line
split_line_cases c cs line after h = elim (Bool-cases (nat_eqb c 10)) [
  | inl e ↦ ground arith
  | inr e ↦ elim (Option-cases (split_line cs)) [
    | inl n ↦ absurd (cc (split_line-none c cs e n, h))
    | inr ((l, a), n) ↦ inr (ground (arith, split_line-some c cs l a e n))
  ]
]

length-split_line :
    (buf line after : Text) → split_line buf ≡ some (line, after) → length after < length buf
length-split_line [] line after h = absurd (unfold split_line in cc)
length-split_line (c ∷ cs) line after h = elim (split_line_cases c cs line after h) [
  | inl (e, l, a) ↦ omega (arith, ap length a)
  | inr (e, l, rest, _) ↦ omega (arith, length-split_line cs l after rest)
]

module _ {S R : Type 0} (handle : Text → S → Flow S R) where
  abbrev fst_of : Text → Flow (Text × S) R → Text
  fst_of d (go (c, t)) = c
  fst_of d (stop r) = d

  pub scan_newline :
      (cur cs : Text) (s : S) (c : ℕ)
      → nat_eqb c 10 ≡ true
      → scan handle cur (c ∷ cs) s ≡ and_then (handle cur s) (λ t. scan handle [] cs t)
  unfolding scan
  scan_newline cur cs s c e = rw e refl

  pub scan_other :
      (cur cs : Text) (s : S) (c : ℕ)
      → nat_eqb c 10 ≡ false
      → scan handle cur (c ∷ cs) s ≡ scan handle (cur ++ c ∷ []) cs s
  unfolding scan
  scan_other cur cs s c e = rw e refl

  pub scan_open : (cur buf : Text) (s : S) → IsOpen buf → scan handle cur buf s ≡ go (cur ++ buf, s)
  scan_open cur [] s h = unfold scan in ap (λ t. go (t, s)) (sym (append-nil cur))
  scan_open cur (c ∷ cs) s h =
      let (other, rest) = IsOpen-tail c cs h in
      scan_other cur cs s c other
      ∙ scan_open (cur ++ c ∷ []) cs s rest
      ∙ ap (λ t. go (t, s)) (append_assoc cur (c ∷ []) cs)

  scan-split_line :
      (cur buf line after : Text) (s : S)
      → split_line buf ≡ some (line, after)
      → scan handle cur buf s ≡ and_then (handle (cur ++ line) s) (λ t. scan handle [] after t)
  scan-split_line cur [] line after s h = absurd (unfold split_line in cc)
  scan-split_line cur (c ∷ cs) line after s h = elim (split_line_cases c cs line after h) [
    | inl (e, l, a) ↦ rw (l, a, append-nil cur) (scan_newline cur cs s c e)
    | inr (e, l, rest, same) ↦
        rw (same, sym (append_assoc cur (c ∷ []) l))
          (scan_other cur cs s c e ∙ scan-split_line (cur ++ c ∷ []) cs l after s rest)
  ]

  pub scan-append :
      (cur xs ys : Text) (s : S)
      → scan handle cur (xs ++ ys) s
        ≡ and_then (scan handle cur xs s) (λ (c, t). scan handle c ys t)
  scan-append cur [] ys s = unfold scan in refl
  scan-append cur (c ∷ xs) ys s = elim (Bool-cases (nat_eqb c 10)) [
    | inl e ↦
        rw (scan_newline cur (xs ++ ys) s c e, scan_newline cur xs s c e, and_then_assoc)
          (and_then_cong (handle cur s) _ _ (λ t. scan-append [] xs ys t))
    | inr e ↦
        rw (scan_other cur (xs ++ ys) s c e, scan_other cur xs s c e)
          (scan-append (cur ++ c ∷ []) xs ys s)
  ]

  drain_open :
      (fuel : ℕ) (buf : Text) (s : S) → IsOpen buf → drain handle (suc fuel) buf s ≡ go (buf, s)
  unfolding drain
  drain_open fuel buf s n = rw (n, drain) refl

  drain_line :
      (fuel : ℕ) (buf line after : Text) (s : S)
      → split_line buf ≡ some (line, after)
      → drain handle (suc fuel) buf s ≡ and_then (handle line s) (λ t. drain handle fuel after t)
  unfolding drain
  drain_line fuel buf line after s n = rw (n, drain) refl

  -- Fuel above the length of the buffer is enough for the loop.
  pub drain-scan :
      (fuel : ℕ) (buf : Text) (s : S)
      → length buf < fuel
      → drain handle fuel buf s ≡ scan handle [] buf s
  drain-scan zero buf s h = absurd (omega arith)
  drain-scan (suc fuel) buf s h = elim (Option-cases (split_line buf)) [
    | inl n ↦ drain_open fuel buf s n ∙ sym (scan_open [] buf s n)
    | inr ((line, after), n) ↦
        drain_line fuel buf line after s n
        ∙ and_then_cong (handle line s) _ _
            (λ t. drain-scan fuel after t (omega (arith, length-split_line buf line after n)))
        ∙ sym (scan-split_line [] buf line after s n)
  ]

  -- The text that a scan leaves is open.
  scan-IsOpen :
      (cur xs : Text) (s : S)
      → IsOpen cur
      → and_then (scan handle cur xs s) (λ (c, t). scan handle [] c t) ≡ scan handle cur xs s
  scan-IsOpen cur [] s h = unfold scan in scan_open [] cur s h
  scan-IsOpen cur (c ∷ xs) s h = elim (Bool-cases (nat_eqb c 10)) [
    | inl e ↦
        rw (scan_newline cur xs s c e, and_then_assoc)
          (and_then_cong (handle cur s) _ _ (λ t. scan-IsOpen [] xs t (unfold split_line in refl)))
    | inr e ↦
        rw (scan_other cur xs s c e) (scan-IsOpen (cur ++ c ∷ []) xs s (IsOpen-snoc cur c h e))
  ]

  pub scan_leaves-IsOpen :
      (cur xs c : Text) (s t : S) → IsOpen cur → scan handle cur xs s ≡ go (c, t) → IsOpen c
  unfolding scan
  scan_leaves-IsOpen cur [] c s t open_cur h = subst IsOpen (ap (λ x. fst_of cur x) h) open_cur
  scan_leaves-IsOpen cur (x ∷ xs) c s t open_cur h = elim (Bool-cases (nat_eqb x 10)) [
    | inl e ↦
        let (s1, _, later) =
          go_of_and_then (handle cur s) _ (c, t) (sym (scan_newline cur xs s x e) ∙ h) in
        scan_leaves-IsOpen [] xs c s1 t (unfold split_line in refl) later
    | inr e ↦
        scan_leaves-IsOpen (cur ++ x ∷ []) xs c s t (IsOpen-snoc cur x open_cur e)
          (sym (scan_other cur xs s x e) ∙ h)
  ]

  feed_line-scan :
      (c chunk : Text) (t : S)
      → scan handle [] c t ≡ go (c, t)
      → feed_line handle chunk (c, t) ≡ scan handle c chunk t
  unfolding feed_line
  feed_line-scan c chunk t h =
      drain-scan (suc (length (c ++ chunk))) (c ++ chunk) t (omega arith)
      ∙ scan-append [] c chunk t
      ∙ ap (λ m. and_then m (λ (c, t). scan handle c chunk t)) h

  -- What a reader has of the text so far, after the chunks that came.
  feed_from :
      (chunks : List Text) (m : Flow (Text × S) R)
      → and_then m (λ (c, t). scan handle [] c t) ≡ m
      → and_then m (feed_all handle chunks) ≡ and_then m (λ (c, t). scan handle c (concat chunks) t)
  unfolding feed_line feed_all concat
  feed_from chunks (stop r) h = refl
  feed_from [] (go (c, t)) h = unfold scan in refl
  feed_from (chunk ∷ chunks) (go (c, t)) h =
      ap (λ m. and_then m (feed_all handle chunks)) (feed_line-scan c chunk t h)
      ∙ feed_from chunks (scan handle c chunk t) (
          subst (λ m. and_then m (λ (c, t). scan handle [] c t) ≡ m)
            (sym (drain-scan (suc (length (c ++ chunk))) (c ++ chunk) t (omega arith))
              ∙ feed_line-scan c chunk t h)
            (scan-IsOpen [] (c ++ chunk) t (unfold split_line in refl)))
      ∙ sym (scan-append c chunk (concat chunks) t)

  -- Reading chunk by chunk is reading their concatenation.
  pub feed_all-scan :
      (buf : Text) (chunks : List Text) (s : S)
      → IsOpen buf
      → feed_all handle chunks (buf, s) ≡ scan handle buf (concat chunks) s
  feed_all-scan buf chunks s h = feed_from chunks (go (buf, s)) (scan_open [] buf s h)
