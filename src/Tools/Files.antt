-- ===== src/Tools/Files.antt =====
-- src/tools/fs.rs: FsExecutor's read_file, write_file and edit_file. What a call writes is the list of
-- the files that it put in place.
use anser.Prelude.{
  ℕ, zero, suc, ◌+◌, ◌-◌, Bool, true, false, ◌&&◌, not, Option, none, some, List, [], ◌∷◌, ◌++◌,
  min, ltb, if◌then◌else◌, ◌==◌,
}
use anser.Prelude.Text.{text_key, Text, codes}
use anser.Engine.Stream.{utf8_len}
use anser.Tools.Paths.{
  PathBuf, SandboxError, binary_file, Checked, accepted, refused, split_at, is_within,
}
use anser.Tools.Symlinks.{Disk, resolve}
use anser.Tools.Binary.{check_binary}
use anser.Tools.Edits.{Edit, edited, not_found, ambiguous, empty_target, edit_text}
pub mod Laws

pub data FsError : Type 0 where
  sandbox : SandboxError → FsError
  io_error : FsError
  file_not_found is_directory already_exists is_root : FsError
  edit_not_found empty_edit : FsError
  ambiguous_edit : (found : ℕ) → FsError

-- The executor: its root, the disk, what reading a file gives as bytes and as text, and which parts
-- of a write fail.
pub record Executor : Type 0 where
  pub root : PathBuf
  pub disk : Disk
  pub to_uppercase : Text → Text
  pub read_bytes : PathBuf → Option Text
  pub read_to_string : PathBuf → Option Text
  pub mkdir_fails : Bool
  pub write_fails : Bool
  pub rename_fails : Bool

-- The lines that `read_file` shows, from `start` on, or its panic on a range that ends before it
-- starts.
pub data Read : Type 0 where
  shown : (start end total : ℕ) (lines : List Text) → Read
  read_failed : FsError → Read
  read_panics : Read

pub data Written : Type 0 where
  wrote : (bytes : ℕ) → Written
  replaced : (occurrences : ℕ) → Written
  write_failed : FsError → Written

-- What a call puts in place, with its answer.
abbrev pub Effect : Type 0
Effect = Written × List (PathBuf × Text)

abbrev pub count_lines : List Text → ℕ
count_lines [] = 0
count_lines (t ∷ ts) = suc (count_lines ts)

abbrev pub skip : ℕ → List Text → List Text
skip zero ts = ts
skip (suc n) [] = []
skip (suc n) (t ∷ ts) = skip n ts

abbrev pub keep : ℕ → List Text → List Text
keep zero ts = []
keep (suc n) [] = []
keep (suc n) (t ∷ ts) = t ∷ keep n ts

unfoldable pub last_shown : (start total : ℕ) → Option ℕ → ℕ
last_shown start total none = min (start + 800) total
last_shown start total (some e) = min e total

-- `&lines[start.min(total)..end]`.
unfoldable pub show_lines : (start_line : ℕ) (end_line : Option ℕ) → List Text → Read
unfolding last_shown
show_lines start_line end_line lines =
    let total = count_lines lines in
    let start = start_line - 1 in
    let end = last_shown start total end_line in
    let from = min start total in
    if ltb end from
    then read_panics
    else shown start end total (keep (end - from) (skip from lines))

-- Equal paths, each within the other.
unfoldable pub path_eqb : PathBuf → PathBuf → Bool
unfolding is_within
path_eqb p q = is_within p q && is_within q p

module _ (e : Executor) where
  unfoldable pub resolved : (input : Text) → Checked
  unfolding resolve
  resolved input = resolve e.disk e.to_uppercase e.root input

  unfoldable pub read_content : (start_line : ℕ) (end_line : Option ℕ) → PathBuf → Read
  unfolding show_lines check_binary split_at
  read_content start_line end_line p = elim (e.read_bytes p) [
    | none ↦ read_failed io_error
    | some content ↦ elim (check_binary content) [
      | some mime ↦ read_failed (sandbox (binary_file mime))
      | none ↦ elim (e.read_to_string p) [
        | none ↦ read_failed io_error
        | some text ↦ show_lines start_line end_line (split_at 10 [] text)
      ]
    ]
  ]

  unfoldable pub read_file : (input : Text) (start_line : ℕ) (end_line : Option ℕ) → Read
  unfolding resolved read_content
  read_file input start_line end_line = elim (resolved input) [
    | refused error ↦ read_failed (sandbox error)
    | accepted p ↦
        if not (e.disk.exists p) then read_failed file_not_found else elim (e.disk.is_dir p) [
          | none ↦ read_failed io_error
          | some true ↦ read_failed is_directory
          | some false ↦ read_content start_line end_line p
        ]
  ]

  -- A file that is written aside and renamed; where the rename fails it is removed again.
  unfoldable pub atomic_write : PathBuf → Text → Written → Effect
  atomic_write target content answer =
      if e.mkdir_fails
      then (write_failed io_error, [])
      else if e.write_fails
      then (write_failed io_error, [])
      else if e.rename_fails
      then (write_failed io_error, [])
      else (answer, (target, content) ∷ [])

  unfoldable pub write_over : PathBuf → (content : Text) (overwrite : Bool) → Effect
  unfolding atomic_write utf8_len
  write_over p content overwrite = elim (e.disk.is_dir p) [
    | none ↦ (write_failed io_error, [])
    | some true ↦ (write_failed is_directory, [])
    | some false ↦
        if not overwrite
        then (write_failed already_exists, [])
        else atomic_write p content (wrote (utf8_len content))
  ]

  unfoldable pub write_file : (input content : Text) (overwrite : Bool) → Effect
  unfolding resolved path_eqb write_over atomic_write utf8_len
  write_file input content overwrite = elim (resolved input) [
    | refused error ↦ (write_failed (sandbox error), [])
    | accepted p ↦
        if path_eqb p e.root
        then (write_failed is_root, [])
        else if e.disk.exists p
        then write_over p content overwrite
        else atomic_write p content (wrote (utf8_len content))
  ]

  unfoldable pub write_edit : PathBuf → Edit → Effect
  unfolding atomic_write
  write_edit p (edited updated occurrences) = atomic_write p updated (replaced occurrences)
  write_edit p not_found = (write_failed edit_not_found, [])
  write_edit p (ambiguous found) = (write_failed (ambiguous_edit found), [])
  write_edit p empty_target = (write_failed empty_edit, [])

  unfoldable pub edit_file : (input target replacement : Text) (replace_all : Bool) → Effect
  unfolding resolved write_edit edit_text
  edit_file input target replacement replace_all =
      if target == [] then (write_failed empty_edit, []) else elim (resolved input) [
        | refused error ↦ (write_failed (sandbox error), [])
        | accepted p ↦
            if not (e.disk.exists p)
            then (write_failed file_not_found, [])
            else elim (e.read_to_string p) [
              | none ↦ (write_failed io_error, [])
              | some original ↦ write_edit p (edit_text original target replacement replace_all)
            ]
      ]
