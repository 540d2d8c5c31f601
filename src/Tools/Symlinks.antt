-- ===== src/Tools/Symlinks.antt =====
-- src/tools/sandbox.rs: resolve_workspace_root and verify_symlink_containment, and
-- FsExecutor::resolve of src/tools/fs.rs, which calls the layers in order.
use anser.Prelude.{
  ◌≡◌, refl, ◌∙◌, Bool, true, false, not, Option, none, some, List, [], ◌∷◌, ◌++◌, map,
  if◌then◌else◌, arith, inl, inr, Bool-cases, Option-cases,
}
use mathlib.Core.Path.{subst}
use anser.Prelude.Text.{Text}
use anser.Tools.Paths.{
  PathBuf, root_dir, Checked, accepted, refused, symlink_escape, workspace_root, io, is_within,
  normalize_traversal, refuse_out_of_tree,
}
use anser.Tools.Paths.Lexical.{names, absolute, normalize_traversal-contained}

-- What the file system answers; `none` is an error of the call.
pub record Disk : Type 0 where
  pub exists : PathBuf → Bool
  pub canonicalize : PathBuf → Option PathBuf
  pub is_dir : PathBuf → Option Bool

unfoldable pub resolve_workspace_root :
    Disk → (to_host_path : PathBuf → PathBuf) → PathBuf → Checked
resolve_workspace_root disk to_host_path root = elim (disk.is_dir (to_host_path root)) [
  | none ↦ refused (workspace_root root)
  | some false ↦ refused (workspace_root root)
  | some true ↦ elim (disk.canonicalize (to_host_path root)) [
    | none ↦ refused (workspace_root root)
    | some real ↦ accepted real
  ]
]

-- The proper prefixes of a path, the longest one first.
unfoldable pub prefixes : PathBuf → List PathBuf
prefixes [] = []
prefixes (c ∷ p) = map (λ q. c ∷ q) (prefixes p) ++ [] ∷ []

-- What repeated calls of `parent` give; the root has none.
unfoldable pub ancestors : PathBuf → List PathBuf
unfolding prefixes
ancestors (root_dir ∷ p) = map (λ q. root_dir ∷ q) (prefixes p)
ancestors p = prefixes p

-- The real path of a place that is there lies inside the root.
unfoldable pub check_real : Disk → (target root place : PathBuf) → Checked
unfolding is_within
check_real disk target root place = elim (disk.canonicalize place) [
  | none ↦ refused io
  | some real ↦
      if not (is_within real root) then refused (symlink_escape place real) else accepted target
]

unfoldable pub check_ancestors : Disk → (target root : PathBuf) → List PathBuf → Checked
unfolding check_real
check_ancestors disk target root [] = accepted target
check_ancestors disk target root (p ∷ ps) =
    let above = check_ancestors disk target root ps in
    if disk.exists p then check_real disk target root p else above

unfoldable pub verify_symlink_containment : Disk → (target root : PathBuf) → Checked
unfolding check_real check_ancestors ancestors
verify_symlink_containment disk target root =
    if disk.exists target
    then check_real disk target root target
    else check_ancestors disk target root (ancestors target)

-- `?` on a layer.
abbrev pub checked_then : Checked → (PathBuf → Checked) → Checked
checked_then (accepted p) f = f p
checked_then (refused error) f = refused error

unfoldable pub resolve : Disk → (to_uppercase : Text → Text) → PathBuf → Text → Checked
unfolding normalize_traversal refuse_out_of_tree verify_symlink_containment
resolve disk up root input = checked_then (normalize_traversal up root input) (λ normalized.
    checked_then (refuse_out_of_tree root normalized) (λ _.
      checked_then (verify_symlink_containment disk normalized root) (λ _. accepted normalized)))

-- The nearest place that is there, a path itself or one of its ancestors.
unfoldable pub nearest : Disk → List PathBuf → Option PathBuf
nearest disk [] = none
nearest disk (p ∷ ps) = let rest = nearest disk ps in if disk.exists p then some p else rest

-- A place whose real path lies inside the root.
abbrev pub IsInside : Disk → (root place : PathBuf) → Type 0
IsInside disk root place =
    (real : PathBuf) × (disk.canonicalize place ≡ some real) × (is_within real root ≡ true)

judged :
    (place real target p : PathBuf) (b : Bool)
    → (if not b then refused (symlink_escape place real) else accepted target) ≡ accepted p
    → b ≡ true
judged place real target p true h = refl
judged place real target p false h = absurd (cc)

-- A place that is checked with success; the answer is the target.
check_real-accepted :
    (disk : Disk) (target root place p : PathBuf)
    → check_real disk target root place ≡ accepted p
    → IsInside disk root place
unfolding check_real
check_real-accepted disk target root place p h = elim (Option-cases (disk.canonicalize place)) [
  | inl failed ↦ absurd (ground arith)
  | inr (real, e) ↦
      (real, e, judged place real target p (is_within real root) (rw (e, check_real) at h))
]

check_ancestors-accepted :
    (disk : Disk) (target root : PathBuf) (ps : List PathBuf) (p place : PathBuf)
    → check_ancestors disk target root ps ≡ accepted p
    → nearest disk ps ≡ some place
    → IsInside disk root place
unfolding check_ancestors nearest
check_ancestors-accepted disk target root [] p place h n = absurd (cc)
check_ancestors-accepted disk target root (q ∷ ps) p place h n = elim (Bool-cases (disk.exists q)) [
  | inl there ↦
      subst (IsInside disk root) (ground arith)
        (check_real-accepted disk target root q p (ground arith))
  | inr missing ↦ check_ancestors-accepted disk target root ps p place (ground arith) (ground arith)
]

verify-accepted :
    (disk : Disk) (target root p place : PathBuf)
    → verify_symlink_containment disk target root ≡ accepted p
    → nearest disk (target ∷ ancestors target) ≡ some place
    → IsInside disk root place
unfolding verify_symlink_containment nearest
verify-accepted disk target root p place h n = elim (Bool-cases (disk.exists target)) [
  | inl there ↦
      subst (IsInside disk root) (ground arith)
        (check_real-accepted disk target root target p (ground arith))
  | inr missing ↦
      check_ancestors-accepted disk target root (ancestors target) p place (ground arith)
        (ground arith)
]

then_accepted :
    (c : Checked) (f : PathBuf → Checked) (p : PathBuf)
    → checked_then c f ≡ accepted p
    → (q : PathBuf) × (c ≡ accepted q) × (f q ≡ accepted p)
then_accepted (accepted q) f p h = (q, refl, h)
then_accepted (refused error) f p h = absurd (cc)

pub resolve-names :
    (disk : Disk) (up : Text → Text) (root : List Text) (input : Text) (p : PathBuf)
    → resolve disk up (absolute root) input ≡ accepted p
    → (us : List Text) × (p ≡ absolute root ++ names us)
unfolding resolve
resolve-names disk up root input p h =
    let (q, normalized, rest) =
      then_accepted (normalize_traversal up (absolute root) input) _ p h in
    let (q2, _, rest2) = then_accepted (refuse_out_of_tree (absolute root) q) _ p rest in
    let (q3, _, last) =
      then_accepted (verify_symlink_containment disk q (absolute root)) _ p rest2 in
    normalize_traversal-contained up root input p (normalized ∙ last)

-- A path that the layers let through is the workspace root followed by plain names, and the nearest
-- place on it that is there, the path itself or one of its ancestors, has its real path inside the
-- root; so no link on the way leads out.
pub resolve-IsInside :
    (disk : Disk) (up : Text → Text) (root : List Text) (input : Text) (p place : PathBuf)
    → resolve disk up (absolute root) input ≡ accepted p
    → nearest disk (p ∷ ancestors p) ≡ some place
    → ((us : List Text) × (p ≡ absolute root ++ names us)) × IsInside disk (absolute root) place
unfolding resolve
resolve-IsInside disk up root input p place h n =
    let (q, normalized, rest) =
      then_accepted (normalize_traversal up (absolute root) input) _ p h in
    let (q2, _, rest2) = then_accepted (refuse_out_of_tree (absolute root) q) _ p rest in
    let (q3, verified, last) =
      then_accepted (verify_symlink_containment disk q (absolute root)) _ p rest2 in
    let same : q ≡ p = ground arith in
    (
      normalize_traversal-contained up root input p (normalized ∙ last),
      verify-accepted disk p (absolute root) q3 place
          (subst (λ x. verify_symlink_containment disk x (absolute root) ≡ accepted q3) same
            verified)
          n,
    )
