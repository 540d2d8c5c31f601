-- ===== src/Tools/Paths.antt =====
-- src/tools/sandbox.rs: normalize_traversal, refuse_out_of_tree and what they call. A path is the list
-- of its components, as `PathBuf::components` of a Unix system gives them.
use anser.Prelude.{
  ℕ, Bool, true, false, ◌&&◌, ◌||◌, not, Option, none, some, List, [], ◌∷◌, ◌++◌, map, leb, nat_eqb,
  if◌then◌else◌, ◌==◌,
}
use anser.Prelude.Text.{text_key, text_eqb, Text, codes, trim, strip_prefix, is_some}
pub mod Lexical

pub data Component : Type 0 where
  root_dir cur_dir parent_dir : Component
  normal : Text → Component

abbrev pub PathBuf : Type 0
PathBuf = List Component

-- What a message shows of a path: the text that came in, or the path.
pub data Shown : Type 0 where
  shown_text : Text → Shown
  shown_path : PathBuf → Shown

pub data SandboxError : Type 0 where
  null_byte : SandboxError
  device_name : (base_name : Text) → SandboxError
  path_escape : (what : Shown) → SandboxError
  symlink_escape : (path real : PathBuf) → SandboxError
  workspace_root : (root : PathBuf) → SandboxError
  binary_file : (mime : Text) → SandboxError
  io : SandboxError

pub data Checked : Type 0 where
  accepted : PathBuf → Checked
  refused : SandboxError → Checked

unfoldable pub component_eqb : Component → Component → Bool
component_eqb root_dir root_dir = true
component_eqb cur_dir cur_dir = true
component_eqb parent_dir parent_dir = true
component_eqb (normal a) (normal b) = a == b
component_eqb _ _ = false

-- `path.strip_prefix(root).is_ok()`, by components.
unfoldable pub is_within : (path root : PathBuf) → Bool
unfolding component_eqb
is_within path [] = true
is_within [] (r ∷ root) = false
is_within (c ∷ path) (r ∷ root) = component_eqb c r && is_within path root

unfoldable pub contains_char : ℕ → Text → Bool
contains_char c [] = false
contains_char c (x ∷ xs) = nat_eqb c x || contains_char c xs

unfoldable pub replace_char : (from to : ℕ) → Text → Text
replace_char from to [] = []
replace_char from to (c ∷ cs) = (if nat_eqb c from then to else c) ∷ replace_char from to cs

-- `split(sep)`, the first part behind `cur`.
unfoldable pub split_at : ℕ → (cur text : Text) → List Text
split_at sep cur [] = cur ∷ []
split_at sep cur (c ∷ cs) =
    let onward = split_at sep [] cs in
    let rest = split_at sep (cur ++ c ∷ []) cs in if nat_eqb c sep then cur ∷ onward else rest

unfoldable pub last_of : Text → List Text → Text
last_of t [] = t
last_of t (x ∷ xs) = last_of x xs

unfoldable pub first_of : List Text → Text
first_of [] = []
first_of (x ∷ xs) = x

-- The components of the parts of a relative path; an inner `.` and an empty part are none.
unfoldable pub parts : List Text → PathBuf
parts [] = []
parts (p ∷ ps) =
    let rest = parts ps in
    if p == []
    then rest
    else if p == codes "."
    then rest
    else if p == codes ".."
    then parent_dir ∷ rest
    else normal p ∷ rest

unfoldable pub is_rooted : Text → Bool
is_rooted [] = false
is_rooted (c ∷ cs) = nat_eqb c 47

-- `PathBuf::from`, whose first component may be `.`.
unfoldable pub components : Text → PathBuf
unfolding parts split_at is_rooted first_of
components t =
    let ps = split_at 47 [] t in
    if is_rooted t
    then root_dir ∷ parts ps
    else if first_of ps == codes "."
    then cur_dir ∷ parts ps
    else parts ps

-- `root.join` of a text that is not rooted.
unfoldable pub join : PathBuf → Text → PathBuf
unfolding components parts split_at
join [] t = components t
join (r ∷ root) t = (r ∷ root) ++ parts (split_at 47 [] t)

-- `PathBuf::pop`, which leaves a root and an empty path alone.
unfoldable pub pop : PathBuf → PathBuf
pop [] = []
pop (c ∷ d ∷ p) = c ∷ pop (d ∷ p)
pop (root_dir ∷ []) = root_dir ∷ []
pop (c ∷ []) = []

-- `PathBuf::push` of one component.
unfoldable pub push : PathBuf → Component → PathBuf
push out root_dir = root_dir ∷ []
push out c = out ++ c ∷ []

unfoldable pub collapse : (out rest : PathBuf) → PathBuf
unfolding pop push
collapse out [] = out
collapse out (cur_dir ∷ rest) = collapse out rest
collapse out (parent_dir ∷ rest) = collapse (pop out) rest
collapse out (root_dir ∷ rest) = collapse (push out root_dir) rest
collapse out (normal t ∷ rest) = collapse (push out (normal t)) rest

unfoldable pub normalize_lexical : PathBuf → PathBuf
unfolding collapse
normalize_lexical p = collapse [] p

unfoldable pub is_ascii_alphabetic : ℕ → Bool
is_ascii_alphabetic c = (leb 65 c && leb c 90) || (leb 97 c && leb c 122)

unfoldable pub is_drive : Text → Bool
unfolding is_ascii_alphabetic
is_drive (c ∷ d ∷ cs) = nat_eqb d 58 && is_ascii_alphabetic c
is_drive _ = false

-- What follows the prefix of a port's name is one digit.
unfoldable pub is_port : Option Text → Bool
is_port (some (d ∷ [])) = leb 48 d && leb d 57
is_port _ = false

-- The Unicode mapping to upper case is a parameter.
module _ (to_uppercase : Text → Text) where
  unfoldable pub is_reserved_device : Text → Bool
  unfolding first_of split_at is_port
  is_reserved_device name =
      let stem = first_of (split_at 46 [] (to_uppercase name)) in
      stem == codes "CON"
      || stem == codes "PRN"
      || stem == codes "AUX"
      || stem == codes "NUL"
      || is_port (strip_prefix stem (codes "COM"))
      || is_port (strip_prefix stem (codes "LPT"))

  -- The checks from the base name on.
  unfoldable pub normalize_posix : PathBuf → (input posix : Text) → Checked
  unfolding is_reserved_device is_drive is_rooted components join normalize_lexical is_within
      last_of
  normalize_posix root input posix =
      let base_name = last_of [] (split_at 47 [] posix) in
      let p = if is_rooted posix || is_drive posix then components posix else join root posix in
      let normalized = normalize_lexical p in
      if is_reserved_device base_name
      then refused (device_name (to_uppercase base_name))
      else if not (is_within normalized root)
      then refused (path_escape (shown_text input))
      else accepted normalized

  unfoldable pub normalize_traversal : PathBuf → Text → Checked
  unfolding normalize_posix contains_char trim replace_char
  normalize_traversal root input =
      if contains_char 0 input
      then refused null_byte
      else if trim input == []
      then accepted root
      else normalize_posix root input (replace_char 92 47 (trim input))

unfoldable pub is_absolute : PathBuf → Bool
is_absolute (root_dir ∷ p) = true
is_absolute _ = false

unfoldable pub refuse_out_of_tree : (root target : PathBuf) → Checked
unfolding is_absolute is_within
refuse_out_of_tree root target =
    if is_absolute target && not (is_within target root)
    then refused (path_escape (shown_path target))
    else accepted target
