-- ===== src/Tools/Shell/Policy.antt =====
-- src/tools/shell.rs: validate and its parts. The patterns are matched by a library of regular
-- expressions, which is a parameter.
use anser.Prelude.{
  ℕ, zero, suc, Bool, true, false, not, ◌||◌, ◌&&◌, Option, none, some, List, [], ◌∷◌, ◌++◌, map,
  nat_eqb, leb, if◌then◌else◌, ◌==◌, String,
}
use anser.Prelude.Text.{text_key, Text, codes, trim, strip_prefix, starts_with, ends_with}
use anser.Engine.Stream.{utf8_len}
use anser.Proxy.Repetition.{take_bytes, drop}
use anser.Tools.Paths.{contains_char, replace_char, split_at, last_of, is_ascii_alphabetic}
use anser.Tools.Edits.{joined, contains}
use anser.Tools.Shell.Words.{tokenize, split_segments, push_word}
use anser.Tools.Shell.Roots.{is_protected_root}
use anser.Tools.Shell.Operands.{one_of, to_ascii_lowercase, normalize_operand}
pub mod Blocks
pub mod Unwraps

pub data ShellPolicyError : Type 0 where
  invalid_command dead_man_fuse : ShellPolicyError
  prohibited_pattern : (signature : String) → ShellPolicyError
  unexpanded_reference : (operand : Text) → ShellPolicyError
  protected_root : (operand normalized : Text) → ShellPolicyError

-- A slice inside of a character is a panic.
pub data Verdict : Type 0 where
  allowed panics : Verdict
  refused : ShellPolicyError → Verdict

-- `?` on a step.
unfoldable pub and_also : Verdict → Verdict → Verdict
and_also allowed later = later
and_also panics later = panics
and_also (refused error) later = refused error

abbrev pub canary_disaster_fuse_token : Text
canary_disaster_fuse_token = codes "__CANARY_TRIGGER_DISASTER_FUSE__"

abbrev pub default_cwd : Text
default_cwd = codes "/workspace"

abbrev pub max_unwrap_depth : ℕ
max_unwrap_depth = 4

abbrev pub destructive : List Text
destructive = map codes ("rm" ∷ "del" ∷ "rmdir" ∷ "rd" ∷ "remove-item" ∷ "ri" ∷ "erase" ∷ [])

abbrev pub transparent : List Text
transparent = map codes ("sudo" ∷ "doas" ∷ "env" ∷ "nice" ∷ "nohup" ∷ "xargs" ∷ [])

abbrev pub win_flags : List Text
win_flags = map codes ("/f" ∷ "/s" ∷ "/q" ∷ "/p" ∷ "/a" ∷ "/c" ∷ "/e" ∷ "/t" ∷ "/y" ∷ "/i" ∷ [])

-- The signatures with their regular expressions.
abbrev pub pattern_blocks : List (String × String)
pattern_blocks =
    ("fork bomb", ":\\(\\)\\s*\\{\\s*:\\s*\\|\\s*:\\s*&\\s*\\}\\s*;")
    ∷ ("disk partitioning", "\\b(mkfs(\\.[a-z0-9]+)?|fdisk|parted)\\b")
    ∷ ("drive format", "\\bformat\\s+[A-Za-z]:")
    ∷ ("dd to raw device", "\\bdd\\s+.*of=/dev/(sd[a-z]|nvme|hd[a-z]|vd[a-z])")
    ∷ []

unfoldable pub first_match :
    (is_match : String → Text → Bool) → Text → List (String × String) → Option String
first_match is_match lower [] = none
first_match is_match lower ((signature, pattern) ∷ blocks) =
    let rest = first_match is_match lower blocks in
    if is_match pattern lower then some signature else rest

unfoldable pub command_name : Text → Text
unfolding split_at last_of to_ascii_lowercase replace_char
command_name token = to_ascii_lowercase (last_of [] (split_at 47 [] (replace_char 92 47 token)))

unfoldable pub is_flag : Text → Bool
unfolding starts_with one_of to_ascii_lowercase
is_flag token = starts_with token (codes "-") || one_of (to_ascii_lowercase token) win_flags

unfoldable pub has_unexpanded_ref : Text → Bool
unfolding contains_char
has_unexpanded_ref operand = contains_char 36 operand || contains_char 96 operand

unfoldable pub is_name_char : ℕ → Bool
unfolding is_ascii_alphabetic
is_name_char c = is_ascii_alphabetic c || (leb 48 c && leb c 57) || nat_eqb 95 c

-- What follows a name's first character, up to the sign of equality.
unfoldable pub has_name : Text → Bool
unfolding is_name_char
has_name [] = false
has_name (c ∷ cs) = nat_eqb 61 c || (is_name_char c && has_name cs)

unfoldable pub is_env_assignment : Text → Bool
unfolding has_name is_ascii_alphabetic
is_env_assignment [] = false
is_env_assignment (c ∷ cs) = (is_ascii_alphabetic c || nat_eqb 95 c) && has_name cs

-- The commands that run the rest of their line; `env` with its assignments, which `after_env` skips.
unfoldable pub skip_prefix : (after_env : Bool) → List Text → List Text
unfolding is_env_assignment command_name one_of
skip_prefix after_env [] = []
skip_prefix after_env (token ∷ tokens) =
    let assigned = skip_prefix true tokens in
    let onward = skip_prefix false tokens in
    if after_env && is_env_assignment token
    then assigned
    else if command_name token == codes "env"
    then assigned
    else if one_of (command_name token) transparent
    then onward
    else token ∷ tokens

-- The flag of a shell, and whether its command is the rest of the line.
unfoldable pub shell_wrapper : Text → Option (Text × Bool)
unfolding one_of
shell_wrapper name =
    if one_of name (map codes ("bash" ∷ "sh" ∷ "dash" ∷ "zsh" ∷ []))
    then some (codes "-c", false)
    else if one_of name (map codes ("cmd" ∷ "cmd.exe" ∷ []))
    then some (codes "/c", true)
    else if one_of name (map codes ("powershell" ∷ "pwsh" ∷ []))
    then some (codes "-command", false)
    else none

unfoldable pub inner_command : (flag : Text) → (rest : Bool) → List Text → Option Text
unfolding to_ascii_lowercase joined
inner_command flag rest (given ∷ cmd ∷ args) =
    if to_ascii_lowercase given == flag
    then some (if rest then joined (32 ∷ []) (cmd ∷ args) else cmd)
    else none
inner_command flag rest _ = none

-- The part before the first sign of equality, and the one behind it.
unfoldable pub split_eq : Text → Option (Text × Text)
split_eq [] = none
split_eq (c ∷ cs) =
    let later = split_eq cs in
    if nat_eqb 61 c
    then some ([], cs)
    else elim later [ none ↦ none | some (name, value) ↦ some (c ∷ name, value) ]

unfoldable pub given_value : Text → Option (Text × Text) → Option Text
unfolding starts_with
given_value tok (some (c ∷ name, value)) =
    if starts_with tok (codes "-") || starts_with tok (codes "/") then some value else none
given_value tok _ = none

unfoldable pub push_operand : (value : Option Text) (tok : Text) → List Text → List Text
unfolding is_flag push_word
push_operand (some value) tok rest = push_word value rest
push_operand none tok rest = if is_flag tok then rest else tok ∷ rest

-- `--flag=value` gives its value, another flag nothing.
unfoldable pub operands : List Text → List Text
unfolding split_eq given_value push_operand
operands [] = []
operands (tok ∷ toks) = push_operand (given_value tok (split_eq tok)) tok (operands toks)

unfoldable pub check_operand : (cwd : Text) (is_win : Bool) → Text → Verdict
unfolding has_unexpanded_ref normalize_operand is_protected_root
check_operand cwd is_win operand =
    let normalized = normalize_operand operand cwd is_win in
    if has_unexpanded_ref operand
    then refused (unexpanded_reference operand)
    else elim (is_protected_root normalized) [
      | none ↦ panics
      | some true ↦ refused (protected_root operand normalized)
      | some false ↦ allowed
    ]

unfoldable pub check_operands : (cwd : Text) (is_win : Bool) → List Text → Verdict
unfolding check_operand and_also
check_operands cwd is_win [] = allowed
check_operands cwd is_win (operand ∷ rest) =
    and_also (check_operand cwd is_win operand) (check_operands cwd is_win rest)

-- A segment from its command on. The analysis of an inner command is `none` at the maximal depth.
unfoldable pub check_command :
    (unwrap : Option (Text → Verdict)) → (cwd : Text) → List Text → Verdict
unfolding command_name shell_wrapper inner_command one_of operands check_operands
check_command unwrap cwd [] = allowed
check_command unwrap cwd (token ∷ args) =
    let name = command_name token in
    let is_win = not (name == codes "rm") in
    elim (shell_wrapper name) [
      | some (flag, rest) ↦ elim unwrap [
        | none ↦ allowed
        | some analyze ↦ elim (inner_command flag rest args) [
          | none ↦ allowed
          | some inner ↦ analyze inner
        ]
      ]
      | none ↦
          if one_of name destructive then check_operands cwd is_win (operands args) else allowed
    ]

unfoldable pub analyze_segment : (unwrap : Option (Text → Verdict)) → (cwd seg : Text) → Verdict
unfolding check_command skip_prefix tokenize
analyze_segment unwrap cwd seg = check_command unwrap cwd (skip_prefix false (tokenize seg))

unfoldable pub analyze_segments : Option (Text → Verdict) → (cwd : Text) → List Text → Verdict
unfolding analyze_segment and_also
analyze_segments unwrap cwd [] = allowed
analyze_segments unwrap cwd (seg ∷ segs) =
    and_also (analyze_segment unwrap cwd seg) (analyze_segments unwrap cwd segs)

module _ (is_match : String → Text → Bool) where
  unfoldable pub pattern_level_block : Text → Option String
  unfolding first_match to_ascii_lowercase
  pattern_level_block cmd = first_match is_match (to_ascii_lowercase cmd) pattern_blocks

  unfoldable pub analyze_with : Option (Text → Verdict) → (cwd cmd : Text) → Verdict
  unfolding pattern_level_block analyze_segments split_segments
  analyze_with unwrap cwd cmd = elim (pattern_level_block cmd) [
    | some signature ↦ refused (prohibited_pattern signature)
    | none ↦ analyze_segments unwrap cwd (split_segments cmd)
  ]

  -- By the levels of shells that may still be unwrapped.
  unfoldable pub analyze_command : (levels : ℕ) → (cwd cmd : Text) → Verdict
  unfolding analyze_with
  analyze_command zero cwd cmd = analyze_with none cwd cmd
  analyze_command (suc levels) cwd cmd =
      analyze_with (some (λ inner. analyze_command levels cwd inner)) cwd cmd

  unfoldable pub validate : Text → Verdict
  unfolding trim contains analyze_command
  validate cmd =
      if trim cmd == []
      then refused invalid_command
      else if contains cmd canary_disaster_fuse_token
      then refused dead_man_fuse
      else analyze_command max_unwrap_depth default_cwd cmd
