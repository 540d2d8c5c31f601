-- ===== src/Examples/Workspace.antt =====
-- The theorems on the sandbox and the file tools at small inputs.
use anser.Prelude.{
  All, ◌≤◌, suc, ◌≡◌, refl, true, false, none, some, List, [], ◌∷◌, ◌++◌, length, string_key,
}
use anser.Prelude.Text.{text_key, Text, codes, trim, strip_prefix}
use anser.Tools.Paths.{
  PathBuf, accepted, normal, normalize_traversal, split_at, parts, replace_char, is_within,
}
use anser.Tools.Paths.Lexical.{
  names, absolute, stays, normalize_traversal-contained, normalize_traversal-stays,
}
use anser.Tools.Symlinks.{Disk}
use anser.Tools.Edits.{edit_found, joined, normalize_line_endings}
use anser.Tools.Edits.Parts.{Free}
use anser.Tools.Edits.Occurrences.{all_replaced}
use anser.Tools.Search.{
  Entries, directory, file, no_more, Search, walk_search, list_dir, dir_item, file_item,
}
use anser.Tools.Search.Matches.{IsMatch, walk_search-Within}
use anser.Tools.Files.{Executor, read_panics, show_lines, write_file}
use anser.Tools.Files.Laws.{Writes, write_file-Writes}

-- Names that are upper case already.
abbrev upper : Text → Text
upper t = t

abbrev root : List Text
root = codes "srv" ∷ codes "work" ∷ []

normalize_traversal-contained_example :
    (us : List Text) × (absolute root ++ normal (codes "b") ∷ [] ≡ absolute root ++ names us)
unfolding normalize_traversal text_key strip_prefix
normalize_traversal-contained_example =
    normalize_traversal-contained upper root (codes " a/../b ")
      (absolute root ++ normal (codes "b") ∷ []) refl

normalize_traversal-stays_example :
    (p : PathBuf) × (normalize_traversal upper (absolute root) (codes "a/../b") ≡ accepted p)
unfolding normalize_traversal text_key stays parts split_at replace_char trim strip_prefix
normalize_traversal-stays_example =
    normalize_traversal-stays upper root (codes "a/../b") refl refl refl refl refl

abbrev disk : Disk
disk = record { exists = λ p. is_within p []; canonicalize = λ p. some p; is_dir = λ p. some false }

abbrev executor : Executor
executor = record {
  root = absolute root;
  disk = disk;
  to_uppercase = upper;
  read_bytes = λ p. some [];
  read_to_string = λ p. some [];
  mkdir_fails = false;
  write_fails = false;
  rename_fails = false;
}

write_file-Writes_example : Writes executor root (write_file executor (codes "b") (codes "x") true)
write_file-Writes_example = write_file-Writes executor root (codes "b") (codes "x") true refl

abbrev before_edit : Text
before_edit = codes "ab ab"

all_replaced_example :
    (parts : List Text) × (before_edit ≡ joined (codes "ab") parts)
    × (codes "c c" ≡ joined (normalize_line_endings (codes "c") none) parts)
    × Free (codes "ab") parts
    × (length parts ≡ suc 2)
unfolding edit_found text_key
all_replaced_example =
    all_replaced before_edit (codes "ab") (codes "c") (codes "c c") none 2 (λ h. cc) refl

abbrev three_lines : List Text
three_lines = codes "a" ∷ codes "b" ∷ codes "c" ∷ []

-- A range that ends before it starts.
range_panics : show_lines 3 (some 1) three_lines ≡ read_panics
unfolding show_lines
range_panics = refl

abbrev tree : Entries
tree =
    directory (codes "src") true
      (file (codes "a.rs") (some 9) (some (codes "fn a\r\nfn b\n"))
        (file (codes "b.png") (some 4) none no_more))
      (directory (codes "target") true (file (codes "c.rs") (some 4) (some (codes "fn c")) no_more)
        (file (codes ".env") (some 4) (some (codes "fn d")) no_more))

abbrev found : Search
found = record {
  matches =
      record { rel = codes "src" ∷ codes "a.rs" ∷ []; number = 1; line = codes "fn a" }
      ∷ record { rel = codes "src" ∷ codes "a.rs" ∷ []; number = 2; line = codes "fn b" }
      ∷ [];
  skipped = (codes "src" ∷ codes "b.png" ∷ []) ∷ [];
}

walk_search-Within_example :
    (length found.matches ≤ 5) × All (IsMatch (λ t. t) (codes "fn") 5) found.matches
unfolding walk_search text_key strip_prefix
walk_search-Within_example = walk_search-Within (λ t. t) (codes "fn") 5 true tree found refl

list_runs :
    list_dir 1 true tree
    ≡ some (record {
      items = (dir_item, codes "src" ∷ []) ∷ (file_item, codes ".env" ∷ []) ∷ [];
      partial = false;
    })
unfolding list_dir text_key
list_runs = refl
