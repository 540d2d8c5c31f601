-- ===== src/Tools/Search.antt =====
-- src/tools/fs.rs: FsExecutor::walk of list_dir and FsExecutor::walk_search of fallback_search, over
-- the tree of entries that the disk gives. Links are not followed by the code; a link to a directory
-- is an entry of another kind.
use anser.Prelude.{
  ℕ, zero, suc, ◌+◌, Bool, true, false, not, ◌||◌, ◌&&◌, Option, none, some, List, [], ◌∷◌, ◌++◌,
  map, reverse, length, ltb, leb, nat_eqb, if◌then◌else◌, ◌==◌,
}
use anser.Prelude.Text.{text_key, Text, codes, starts_with}
use anser.Tools.Paths.{split_at, contains_char, last_of}
use anser.Tools.Edits.{contains}
use anser.Tools.Shell.Operands.{one_of}
pub mod Matches

-- The entries of a directory in the order of the disk: `broken` where one cannot be read, `untyped`
-- where its type cannot.
pub data Entries : Type 0 where
  no_more broken : Entries
  file : (name : Text) (size : Option ℕ) (content : Option Text) → Entries → Entries
  directory : (name : Text) (readable : Bool) (inside rest : Entries) → Entries
  other : (name : Text) → Entries → Entries
  untyped : (name : Text) → Entries → Entries

abbrev pub ignored_dirs : List Text
ignored_dirs = map codes (
    ".venv" ∷ "venv" ∷ "node_modules" ∷ ".git" ∷ "__pycache__" ∷ "target" ∷ "dist" ∷ "build"
    ∷ "vendor" ∷ ".idea" ∷ ".vscode" ∷ [])

unfoldable pub is_env_file : Text → Bool
unfolding starts_with
is_env_file name = name == codes ".env" || starts_with name (codes ".env.")

abbrev pub binary_extensions : List Text
binary_extensions = map codes (
    "pdf" ∷ "png" ∷ "jpg" ∷ "jpeg" ∷ "webp" ∷ "gif" ∷ "ico" ∷ "zip" ∷ "gz" ∷ "tar" ∷ "7z" ∷ "bz2"
    ∷ "xz" ∷ "wasm" ∷ "exe" ∷ "dll" ∷ "so" ∷ "dylib" ∷ "bin" ∷ "mp3" ∷ "mp4" ∷ "avi" ∷ "mov" ∷ "wav"
    ∷ "woff" ∷ "woff2" ∷ "ttf" ∷ "otf" ∷ "sqlite" ∷ "db" ∷ [])

-- A name without a dot has no extension; nor has one that ends with its last dot.
unfoldable pub is_binary_extension : (to_lowercase : Text → Text) → Text → Bool
unfolding contains_char split_at last_of one_of
is_binary_extension to_lowercase name =
    contains_char 46 name
    && not (last_of [] (split_at 46 [] name) == [])
    && one_of (to_lowercase (last_of [] (split_at 46 [] name))) binary_extensions

-- `lines()`: no line behind the last newline, and no carriage return at a line's end.
unfoldable pub drop_return : Text → Text
drop_return line = elim (reverse line) [
  | [] ↦ line
  | c ∷ rest ↦ if nat_eqb 13 c then reverse rest else line
]

unfoldable pub drop_last : List Text → List Text
unfolding drop_return
drop_last [] = []
drop_last (t ∷ []) = if t == [] then [] else t ∷ []
drop_last (t ∷ u ∷ ts) = drop_return t ∷ drop_last (u ∷ ts)

unfoldable pub lines_of : Text → List Text
unfolding split_at drop_last
lines_of content = drop_last (split_at 10 [] content)

pub data Kind : Type 0 where
  dir_item file_item : Kind

-- The items of a listing with their names from the base on, and whether one was left out.
pub record Shown : Type 0 where
  pub items : List (Kind × List Text)
  pub partial : Bool

abbrev pub add_item : Kind → List Text → Shown → Shown
add_item kind rel s = record s { items = s.items ++ (kind, rel) ∷ [] }

-- A directory at `depth`; `none` where the call ends with an error.
unfoldable pub list_entries :
    (max_depth depth : ℕ) (rel : List Text) → Entries → Shown → Option Shown
unfolding one_of
list_entries max_depth depth rel no_more s = some s
list_entries max_depth depth rel broken s = none
list_entries max_depth depth rel (untyped name rest) s =
    let onward = list_entries max_depth depth rel rest s in
    if one_of name ignored_dirs then onward else none
list_entries max_depth depth rel (file name size content rest) s =
    let onward = list_entries max_depth depth rel rest s in
    let added = list_entries max_depth depth rel rest (add_item file_item (rel ++ name ∷ []) s) in
    if one_of name ignored_dirs then onward else added
list_entries max_depth depth rel (other name rest) s =
    let onward = list_entries max_depth depth rel rest s in
    let added = list_entries max_depth depth rel rest (add_item file_item (rel ++ name ∷ []) s) in
    if one_of name ignored_dirs then onward else added
list_entries max_depth depth rel (directory name readable inside rest) s =
    let s1 = add_item dir_item (rel ++ name ∷ []) s in
    let entered = list_entries max_depth (suc depth) (rel ++ name ∷ []) inside s1 in
    let onward = list_entries max_depth depth rel rest s in
    let walked : Option Shown =
      if ltb max_depth (suc depth)
      then some s1
      else if readable
      then entered
      else some (record s1 { partial = true }) in
    let added : Option Shown = elim walked [
      | none ↦ none
      | some s2 ↦ list_entries max_depth depth rel rest s2
    ] in
    if one_of name ignored_dirs then onward else added

-- `walk` from the directory that is listed.
unfoldable pub list_dir : (max_depth : ℕ) (readable : Bool) → Entries → Option Shown
unfolding list_entries
list_dir max_depth readable entries =
    if ltb max_depth 1
    then some (record { items = []; partial = false })
    else if readable
    then list_entries max_depth 1 [] entries (record { items = []; partial = false })
    else some (record { items = []; partial = true })

-- A line that matches: the names from the base on, its number and its text.
pub record Match : Type 0 where
  pub rel : List Text
  pub number : ℕ
  pub line : Text

pub record Search : Type 0 where
  pub matches : List Match
  pub skipped : List (List Text)

module _ (to_lowercase : Text → Text) (query : Text) (max_results : ℕ) where
  unfoldable pub is_full : Search → Bool
  is_full s = leb max_results (length s.matches)

  unfoldable pub add_match : List Text → ℕ → Text → Search → Search
  unfolding contains
  add_match rel number line s =
      if contains line query
      then record s {
        matches = s.matches ++ record { rel = rel; number = number; line = line } ∷ [];
      }
      else s

  unfoldable pub search_lines : List Text → (number : ℕ) → List Text → Search → Search
  unfolding is_full add_match
  search_lines rel number [] s = s
  search_lines rel number (line ∷ lines) s =
      let onward = search_lines rel (suc number) lines (add_match rel number line s) in
      if is_full s then s else onward

  -- A file below the limit of size.
  unfoldable pub search_file : List Text → (name : Text) → ℕ → Option Text → Search → Search
  unfolding is_binary_extension search_lines lines_of
  search_file rel name size content s =
      if not (ltb size 500000)
      then s
      else if is_binary_extension to_lowercase name
      then record s { skipped = s.skipped ++ rel ∷ [] }
      else elim content [ none ↦ s | some text ↦ search_lines rel 1 (lines_of text) s ]

  unfoldable pub is_left_out : Text → Bool
  unfolding one_of is_env_file
  is_left_out name = one_of name ignored_dirs || is_env_file name

  unfoldable pub search_entries : List Text → Entries → Search → Option Search
  unfolding is_full is_left_out search_file
  search_entries rel no_more s = some s
  search_entries rel broken s = if is_full s then some s else none
  search_entries rel (untyped name rest) s =
      let onward = search_entries rel rest s in
      if is_full s then some s else if is_left_out name then onward else none
  search_entries rel (other name rest) s =
      let onward = search_entries rel rest s in if is_full s then some s else onward
  search_entries rel (file name size content rest) s =
      let onward = search_entries rel rest s in
      let searched : Option Search = elim size [
        | none ↦ none
        | some n ↦ search_entries rel rest (search_file (rel ++ name ∷ []) name n content s)
      ] in
      if is_full s then some s else if is_left_out name then onward else searched
  search_entries rel (directory name readable inside rest) s =
      let onward = search_entries rel rest s in
      let entered = search_entries (rel ++ name ∷ []) inside s in
      let walked : Option Search = if readable then entered else some s in
      let searched : Option Search = elim walked [
        | none ↦ none
        | some s1 ↦ search_entries rel rest s1
      ] in
      if is_full s then some s else if is_left_out name then onward else searched

  unfoldable pub walk_search : (readable : Bool) → Entries → Option Search
  unfolding search_entries is_full
  walk_search readable entries =
      if leb max_results 0
      then some (record { matches = []; skipped = [] })
      else if readable
      then search_entries [] entries (record { matches = []; skipped = [] })
      else some (record { matches = []; skipped = [] })
