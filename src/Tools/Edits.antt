-- ===== src/Tools/Edits.antt =====
-- src/tools/fs.rs: the text of FsExecutor::edit_file, with line_ending_style and
-- normalize_line_endings. A file that is read and the arguments are texts.
use anser.Prelude.{
  ℕ, zero, suc, Bool, true, false, ◌&&◌, not, Option, none, some, List, [], ◌∷◌, ◌++◌, ltb,
  if◌then◌else◌, length, ◌==◌, nat_key,
}
use anser.Prelude.Text.{text_key, Text, strip_prefix, is_some}
pub mod Parts
pub mod Occurrences

-- What stands before the first occurrence of a pattern, and after it.
unfoldable pub split_first : (target text : Text) → Option (Text × Text)
unfolding strip_prefix
split_first target [] = elim (strip_prefix [] target) [
  | none ↦ none
  | some after ↦ some ([], after)
]
split_first target (c ∷ cs) =
    let rest = split_first target cs in
    elim (strip_prefix (c ∷ cs) target) [
      | some after ↦ some ([], after)
      | none ↦ elim rest [ none ↦ none | some (before, after) ↦ some (c ∷ before, after) ]
    ]

unfoldable pub contains : (text target : Text) → Bool
unfolding split_first
contains text target = is_some (split_first target text)

-- The parts around the occurrences, which do not overlap, on fuel. No target that is searched is
-- empty.
unfoldable pub split_on : ℕ → (target text : Text) → List Text
unfolding split_first
split_on zero target text = text ∷ []
split_on (suc fuel) target text = elim (split_first target text) [
  | none ↦ text ∷ []
  | some (before, after) ↦ before ∷ split_on fuel target after
]

unfoldable pub joined : (between : Text) → List Text → Text
joined between [] = []
joined between (t ∷ []) = t
joined between (t ∷ u ∷ ts) = t ++ between ++ joined between (u ∷ ts)

-- `matches(target).count()`.
unfoldable pub count : (text target : Text) → ℕ
unfolding split_on
count text target = elim (split_on (length text) target text) [ [] ↦ 0 | t ∷ ts ↦ length ts ]

unfoldable pub replace : (text from to : Text) → Text
unfolding split_on joined
replace text from to = joined to (split_on (length text) from text)

-- `replacen(from, to, 1)`.
unfoldable pub replace_one : (text from to : Text) → Text
unfolding split_first
replace_one text from to = elim (split_first from text) [
  | none ↦ text
  | some (before, after) ↦ before ++ to ++ after
]

abbrev pub crlf : Text
crlf = 13 ∷ 10 ∷ []

abbrev pub lf : Text
lf = 10 ∷ []

pub data Style : Type 0 where
  mixed_style crlf_style lf_style : Style

unfoldable pub line_ending_style : Text → Option Style
unfolding contains replace
line_ending_style text =
    let has_crlf = contains text crlf in
    let has_bare_lf = contains (replace text crlf []) lf in
    if has_crlf && has_bare_lf
    then some mixed_style
    else if has_crlf
    then some crlf_style
    else if has_bare_lf
    then some lf_style
    else none

unfoldable pub normalize_line_endings : Text → Option Style → Text
unfolding replace
normalize_line_endings text (some crlf_style) = replace (replace text crlf lf) lf crlf
normalize_line_endings text (some lf_style) = replace text crlf lf
normalize_line_endings text _ = text

-- The target as the file spells its line ends, with the style for the replacement.
unfoldable pub effective : (original target : Text) → Option (Text × Option Style)
unfolding contains replace line_ending_style
effective original target =
    let crlf_target = replace (replace target crlf lf) lf crlf in
    let lf_target = replace target crlf lf in
    if contains original target
    then some (target, line_ending_style target)
    else if not (crlf_target == target) && contains original crlf_target
    then some (crlf_target, some crlf_style)
    else if not (lf_target == target) && contains original lf_target
    then some (lf_target, some lf_style)
    else none

pub data Edit : Type 0 where
  edited : (updated : Text) (occurrences : ℕ) → Edit
  not_found : Edit
  ambiguous : (found : ℕ) → Edit
  empty_target : Edit

unfoldable pub edit_found :
    (original target replacement : Text) (style : Option Style) (replace_all : Bool) → Edit
unfolding count replace replace_one normalize_line_endings
edit_found original target replacement style replace_all =
    let found = count original target in
    let by = normalize_line_endings replacement style in
    if found == 0
    then not_found
    else if ltb 1 found && not replace_all
    then ambiguous found
    else if replace_all
    then edited (replace original target by) found
    else edited (replace_one original target by) 1

unfoldable pub edit_text : (original target replacement : Text) (replace_all : Bool) → Edit
unfolding effective edit_found
edit_text original target replacement replace_all =
    if target == [] then empty_target else elim (effective original target) [
      | none ↦ not_found
      | some (found, style) ↦ edit_found original found replacement style replace_all
    ]
