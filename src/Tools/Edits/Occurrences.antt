-- ===== src/Tools/Edits/Occurrences.antt =====
-- src/tools/fs.rs: what edit_file changes, and what it leaves.
use anser.Prelude.{
  ℕ, zero, suc, ◌≡◌, ◌≢◌, refl, sym, ◌∙◌, inl, inr, Bool, true, false, ◌&&◌, not, Option, some,
  List, [], ◌∷◌, ◌++◌, length, ltb, if◌then◌else◌, ◌==◌, nat_key, arith, Option-cases,
}
use anser.Prelude.Text.{text_key, Text}
use anser.Tools.Edits.{
  split_first, split_on, joined, count, replace, replace_one, Style, normalize_line_endings, edited,
  not_found, ambiguous, edit_found,
}
use anser.Tools.Edits.Parts.{
  split_first_parts, joined-split_on, Free, Free-split_on, length-split_on,
}

picked_all :
    (b c : Bool) (m n : ℕ) (u v updated : Text)
    → (if b
        then not_found
        else if c && not true
        then ambiguous m
        else if true
        then edited u m
        else edited v 1)
      ≡ edited updated n
    → (updated ≡ u) × (n ≡ m)
picked_all true c m n u v updated h = absurd (cc)
picked_all false true m n u v updated h = (ground arith, ground arith)
picked_all false false m n u v updated h = (ground arith, ground arith)

picked_one :
    (b c : Bool) (m n : ℕ) (u v updated : Text)
    → (if b
        then not_found
        else if c && not false
        then ambiguous m
        else if false
        then edited u m
        else edited v 1)
      ≡ edited updated n
    → (updated ≡ v) × (n ≡ 1) × (b ≡ false) × (c ≡ false)
picked_one true c m n u v updated h = absurd (cc)
picked_one false true m n u v updated h = absurd (cc)
picked_one false false m n u v updated h = (ground arith, ground arith, refl, refl)

-- What an edit of every occurrence does: the file falls into parts that do not hold the target, with
-- the target between them, and the new text has the replacement there instead; the number that is
-- reported is the number of occurrences.
pub all_replaced :
    (original target replacement updated : Text) (style : Option Style) (n : ℕ)
    → target ≢ []
    → edit_found original target replacement style true ≡ edited updated n
    → (parts : List Text) × (original ≡ joined target parts)
      × (updated ≡ joined (normalize_line_endings replacement style) parts)
      × Free target parts
      × (length parts ≡ suc n)
unfolding edit_found replace
all_replaced original [] replacement updated style n some_target h = absurd (some_target refl)
all_replaced original (p ∷ ps) replacement updated style n some_target h =
    let by = normalize_line_endings replacement style in
    let found = count original (p ∷ ps) in
    let parts = split_on (length original) (p ∷ ps) original in
    let (updated_as, number) =
      picked_all (found == 0) (ltb 1 found) found n (replace original (p ∷ ps) by)
        (replace_one original (p ∷ ps) by) updated h in
    (
      parts,
      sym (joined-split_on (length original) (p ∷ ps) original),
      updated_as,
      Free-split_on (length original) p ps original (omega arith),
      omega (arith, number, length-split_on original (p ∷ ps)),
    )

two_parts :
    (fuel : ℕ) (target text : Text)
    → length (split_on fuel target text) ≡ 2
    → (before : Text) × (after : Text) × (split_first target text ≡ some (before, after))
unfolding split_on
two_parts zero target text h = absurd (omega arith)
two_parts (suc fuel) target text h = elim (Option-cases (split_first target text)) [
  | inl e ↦ let e2 = rw (e, split_on) at h in absurd (omega arith)
  | inr ((b, a), e) ↦ (b, a, e)
]

-- What an edit of one occurrence does: it is reported as one, the file holds the target between a
-- part before and a part after it, and only what stands between them changes.
pub one_replaced :
    (original target replacement updated : Text) (style : Option Style) (n : ℕ)
    → edit_found original target replacement style false ≡ edited updated n
    → (count original target ≡ 1)
      × (n ≡ 1)
      × (before : Text) × (after : Text) × (original ≡ before ++ target ++ after)
      × (updated ≡ before ++ normalize_line_endings replacement style ++ after)
unfolding edit_found replace_one
one_replaced original target replacement updated style n h =
    let by = normalize_line_endings replacement style in
    let found = count original target in
    let (updated_as, number, some_found, few) =
      picked_one (found == 0) (ltb 1 found) found n (replace original target by)
        (replace_one original target by) updated h in
    let once : found ≡ 1 = ground arith in
    let (before, after, e) =
      two_parts (length original) target original
        (omega (arith, once, length-split_on original target)) in
    (
      once,
      number,
      before,
      after,
      split_first_parts target original before after e,
      updated_as ∙ rw (e, replace_one) refl,
    )
