-- ===== src/Tools/Files/Laws.antt =====
-- src/tools/fs.rs: where the file tools write, and which ranges read_file shows.
use anser.Prelude.{
  ℕ, ◌-◌, ◌≡◌, refl, ◌⊎◌, inl, inr, Bool, true, false, not, Option, none, some, List, [], ◌∷◌, ◌++◌,
  ltb, if◌then◌else◌, ◌==◌,
}
use mathlib.Core.Path.{subst}
use anser.Prelude.Text.{text_key, Text}
use anser.Engine.Stream.{utf8_len}
use anser.Tools.Paths.{PathBuf, SandboxError, Checked, accepted, refused}
use anser.Tools.Paths.Lexical.{names, absolute}
use anser.Tools.Symlinks.{resolve, ancestors, nearest, IsInside, resolve-IsInside, resolve-names}
use anser.Tools.Edits.{Edit, edited, not_found, ambiguous, empty_target, edit_text}
use anser.Tools.Files.{
  FsError, sandbox, io_error, file_not_found, is_directory, already_exists, is_root, edit_not_found,
  empty_edit, ambiguous_edit, wrote, replaced, Executor, Read, shown, read_panics, Written,
  write_failed, Effect, count_lines, keep, skip, resolved, atomic_write, write_over, write_file,
  write_edit, edit_file, path_eqb,
}

-- A place that the tools may write to: below the root by plain names, and with the real path of the
-- nearest place on it inside the root.
abbrev pub Allowed : Executor → List Text → PathBuf → Type 0
Allowed e root p =
    ((us : List Text) × (p ≡ absolute root ++ names us))
    × ((place : PathBuf)
        → nearest e.disk (p ∷ ancestors p) ≡ some place
        → IsInside e.disk (absolute root) place)

-- Every file that a call put in place stands at such a place, and it is one at most.
unfoldable pub Writes : Executor → List Text → Effect → Type 0
Writes e root (answer, []) = Unit {0}
Writes e root (answer, (p, content) ∷ []) = Allowed e root p
Writes e root (answer, _ ∷ _ ∷ _) = ⊥

resolved-Allowed :
    (e : Executor) (root : List Text) (input : Text) (p : PathBuf)
    → e.root ≡ absolute root
    → resolved e input ≡ accepted p
    → Allowed e root p
unfolding resolved
resolved-Allowed e root input p at h =
    let h' = subst (λ r. resolve e.disk e.to_uppercase r input ≡ accepted p) at h in
    (
      resolve-names e.disk e.to_uppercase root input p h',
      λ place n. (resolve-IsInside e.disk e.to_uppercase root input p place h' n).1,
    )

module _ (e : Executor) (root : List Text) where
  if_Writes :
      (b : Bool) (x y : Effect)
      → Writes e root x
      → Writes e root y
      → Writes e root (if b then x else y)
  if_Writes true x y h k = h
  if_Writes false x y h k = k

  option_Writes :
      {A : Type 0} (o : Option A) (x : Effect) (f : A → Effect)
      → Writes e root x
      → ((a : A) → Writes e root (f a))
      → Writes e root (elim o [ none ↦ x | some a ↦ f a ])
  option_Writes none x f h k = h
  option_Writes (some a) x f h k = k a

  failed_Writes : (x : FsError) → Writes e root (write_failed x, [])
  unfolding Writes
  failed_Writes x = tt

  one_Writes :
      (p : PathBuf) (content : Text) (answer : Written)
      → Allowed e root p
      → Writes e root (answer, (p, content) ∷ [])
  unfolding Writes
  one_Writes p content answer ok = ok

  atomic_write-Writes :
      (p : PathBuf) (content : Text) (answer : Written)
      → Allowed e root p
      → Writes e root (atomic_write e p content answer)
  unfolding atomic_write
  atomic_write-Writes p content answer ok = if_Writes e.mkdir_fails _ _ (failed_Writes io_error) (
      if_Writes e.write_fails _ _ (failed_Writes io_error)
        (if_Writes e.rename_fails _ _ (failed_Writes io_error) (one_Writes p content answer ok)))

  write_over-Writes :
      (p : PathBuf) (content : Text) (overwrite : Bool)
      → Allowed e root p
      → Writes e root (write_over e p content overwrite)
  unfolding write_over
  write_over-Writes p content overwrite ok =
      by_kind (e.disk.is_dir p) (atomic_write-Writes p content (wrote (utf8_len content)) ok)
    where
      by_kind :
          (o : Option Bool)
          → Writes e root (atomic_write e p content (wrote (utf8_len content)))
          → Writes e root (elim o [
            | none ↦ (write_failed io_error, [])
            | some true ↦ (write_failed is_directory, [])
            | some false ↦
                if not overwrite
                then (write_failed already_exists, [])
                else atomic_write e p content (wrote (utf8_len content))
          ])
      by_kind none k = failed_Writes io_error
      by_kind (some true) k = failed_Writes is_directory
      by_kind (some false) k = if_Writes (not overwrite) _ _ (failed_Writes already_exists) k

  write_edit-Writes : (p : PathBuf) (x : Edit) → Allowed e root p → Writes e root (write_edit e p x)
  unfolding write_edit
  write_edit-Writes p (edited updated n) ok = atomic_write-Writes p updated (replaced n) ok
  write_edit-Writes p not_found ok = failed_Writes edit_not_found
  write_edit-Writes p (ambiguous n) ok = failed_Writes (ambiguous_edit n)
  write_edit-Writes p empty_target ok = failed_Writes empty_edit

Checked-cases :
    (c : Checked) → ((p : PathBuf) × (c ≡ accepted p)) ⊎ ((x : SandboxError) × (c ≡ refused x))
Checked-cases (accepted p) = inl (p, refl)
Checked-cases (refused x) = inr (x, refl)

-- Whatever path a call names, and however the disk answers, write_file puts at most one file in place:
-- below the root by plain names, and where the nearest place that is there lies inside the root. The
-- root is absolute.
pub write_file-Writes :
    (e : Executor) (root : List Text) (input content : Text) (overwrite : Bool)
    → e.root ≡ absolute root
    → Writes e root (write_file e input content overwrite)
unfolding write_file
write_file-Writes e root input content overwrite at = elim (Checked-cases (resolved e input)) [
  | inr (x, h) ↦ rw (h, write_file) (failed_Writes e root (sandbox x))
  | inl (p, h) ↦
      let ok = resolved-Allowed e root input p at h in
      rw (h, write_file)
        (if_Writes e root (path_eqb p e.root) _ _ (failed_Writes e root is_root) (
          if_Writes e root (e.disk.exists p) _ _ (write_over-Writes e root p content overwrite ok)
            (atomic_write-Writes e root p content (wrote (utf8_len content)) ok)))
]

-- The same holds of edit_file.
pub edit_file-Writes :
    (e : Executor) (root : List Text) (input target replacement : Text) (replace_all : Bool)
    → e.root ≡ absolute root
    → Writes e root (edit_file e input target replacement replace_all)
unfolding edit_file
edit_file-Writes e root input target replacement replace_all at =
    if_Writes e root (target == []) _ _ (failed_Writes e root empty_edit)
      (elim (Checked-cases (resolved e input)) [
        | inr (x, h) ↦ rw h (failed_Writes e root (sandbox x))
        | inl (p, h) ↦
            let ok = resolved-Allowed e root input p at h in
            rw h (
              if_Writes e root (not (e.disk.exists p)) _ _ (failed_Writes e root file_not_found) (
                option_Writes e root (e.read_to_string p) (write_failed io_error, [])
                  (λ original. write_edit e p (edit_text original target replacement replace_all))
                  (failed_Writes e root io_error)
                  (λ original.
                    write_edit-Writes e root p (edit_text original target replacement replace_all)
                      ok)))
      ])

abbrev window : (start end from total : ℕ) → List Text → Read
window start end from total lines =
    if ltb end from
    then read_panics
    else shown start end total (keep (end - from) (skip from lines))

-- A text's lines fall into those before a part, the part, and those behind it.
pub record Cut (skipped size : ℕ) (lines part : List Text) : Type 0 where
  pub before : List Text
  pub after : List Text
  pub cut : lines ≡ before ++ (part ++ after)
  pub skips : count_lines before ≡ skipped
  pub sized : count_lines part ≡ size

-- The numbers of an answer, and its lines.
record Counts (start end from total : ℕ) (lines : List Text) (r : Read) : Type 0 where
  counts :
      (s e t : ℕ) (part : List Text)
      → r ≡ shown s e t part
      → (s ≡ start) × (e ≡ end) × (t ≡ total) × Cut from (end - from) lines part
