-- ===== src/Tools/Shell/Operands.antt =====
-- src/tools/shell.rs: how an operand of a deleting command becomes the path that is compared with
-- the protected roots. The home directory is fixed in the code.
use anser.Prelude.{
  ℕ, ◌+◌, ◌-◌, Bool, false, ◌||◌, ◌&&◌, Option, none, some, List, [], ◌∷◌, ◌++◌, map, reverse,
  nat_eqb, leb, if◌then◌else◌, ◌==◌,
}
use anser.Prelude.Text.{text_key, Text, codes, trim, strip_prefix, starts_with, ends_with}
use anser.Engine.Stream.{or_else}
use anser.Proxy.Repetition.{drop}
use anser.Tools.Paths.{replace_char, split_at, is_ascii_alphabetic}
use anser.Tools.Edits.{joined}

unfoldable pub lower_char : ℕ → ℕ
lower_char c = if leb 65 c && leb c 90 then c + 32 else c

unfoldable pub to_ascii_lowercase : Text → Text
unfolding lower_char
to_ascii_lowercase t = map lower_char t

-- Membership in a constant list.
unfoldable pub one_of : Text → List Text → Bool
one_of t [] = false
one_of t (u ∷ us) = t == u || one_of t us

abbrev pub home : Text
home = codes "/home/user"

unfoldable pub expand_name : (is_win : Bool) → Text → Text
expand_name is_win rest =
    if is_win
    then codes "C:\\Users\\" ++ rest
    else if rest == codes "root"
    then codes "/root"
    else codes "/home/" ++ rest

-- `~`, `~/path`, `~\path` and `~name`.
unfoldable pub expand_tilde : Text → (is_win : Bool) → Text
unfolding expand_name replace_char
expand_tilde [] is_win = []
expand_tilde (c ∷ []) is_win = if nat_eqb 126 c then home else c ∷ []
expand_tilde (c ∷ d ∷ rest) is_win =
    if nat_eqb 126 c
    then if nat_eqb 47 d || nat_eqb 92 d
      then home ++ replace_char 92 47 (d ∷ rest)
      else expand_name is_win (d ∷ rest)
    else c ∷ d ∷ rest

unfoldable pub fold_char : ℕ → ℕ
fold_char c =
    if leb 0xff01 c && leb c 0xff5e then c - 0xff01 + 0x21 else if nat_eqb 0x3000 c then 32 else c

unfoldable pub nfkc_fold : Text → Text
unfolding fold_char
nfkc_fold t = map fold_char t

-- The path behind the name of a WSL machine.
unfoldable pub wsl_path : Option Text → Option Text
unfolding split_at joined
wsl_path none = none
wsl_path (some rest) = elim (split_at 92 [] rest) [
  | [] ↦ none
  | name ∷ parts ↦ elim parts [ [] ↦ none | sub ∷ subs ↦ some (47 ∷ joined (47 ∷ []) (sub ∷ subs)) ]
]

-- A drive: `C:\path` or `C:/path`, and `/c/path`.
unfoldable pub drive_path : Text → Option Text
unfolding is_ascii_alphabetic lower_char replace_char
drive_path (a ∷ b ∷ c ∷ sub) =
    if is_ascii_alphabetic a && nat_eqb 58 b && (nat_eqb 92 c || nat_eqb 47 c)
    then some (codes "/mnt/" ++ lower_char a ∷ 47 ∷ replace_char 92 47 sub)
    else if nat_eqb 47 a && is_ascii_alphabetic b && nat_eqb 47 c
    then some (codes "/mnt/" ++ lower_char b ∷ 47 ∷ sub)
    else none
drive_path _ = none

-- The second prefix of WSL ends with two backslashes in the code.
unfoldable pub to_posix : Text → Text
unfolding trim strip_prefix wsl_path drive_path replace_char
to_posix p =
    let t = trim p in
    if t == []
    then home
    else elim (or_else
        (wsl_path (
          or_else (strip_prefix t (codes "\\\\wsl.localhost\\"))
            (strip_prefix t (codes "\\\\wsl$\\\\"))))
        (drive_path t)) [ some path ↦ path | none ↦ replace_char 92 47 t ]

-- The loop over the components, whose stack has its top first.
unfoldable pub climb : (stack rest : List Text) → List Text
climb stack [] = reverse stack
climb stack (comp ∷ rest) =
    let same = climb stack rest in
    let up = climb (elim stack [ [] ↦ [] | top ∷ below ↦ below ]) rest in
    let down = climb (comp ∷ stack) rest in
    if comp == [] || comp == codes "." then same else if comp == codes ".." then up else down

unfoldable pub posix_normalize : Text → Text
unfolding climb split_at joined
posix_normalize p = 47 ∷ joined (47 ∷ []) (climb [] (split_at 47 [] p))

unfoldable pub trim_slashes : Text → Text
trim_slashes [] = []
trim_slashes (c ∷ cs) = let rest = trim_slashes cs in if nat_eqb 47 c then rest else c ∷ cs

-- A wildcard at the end: what stands before it, and the wildcard.
unfoldable pub cut_wildcard : Text → Text × Text
unfolding ends_with
cut_wildcard p =
    if ends_with p (codes "/*")
    then (reverse (drop 2 (reverse p)), codes "/*")
    else if ends_with p (codes "*")
    then (reverse (drop 1 (reverse p)), codes "*")
    else (p, [])

unfoldable pub absolute : (posix cwd : Text) → Text
unfolding posix_normalize to_posix starts_with trim_slashes
absolute posix cwd =
    let p = if posix == [] then codes "/" else posix in
    let full = if starts_with p (codes "/") then p else to_posix cwd ++ 47 ∷ p in
    let normal = posix_normalize full in
    if normal == codes "/" then normal else reverse (trim_slashes (reverse normal))

unfoldable pub normalize_operand : (operand cwd : Text) (is_win : Bool) → Text
unfolding expand_tilde nfkc_fold to_posix cut_wildcard absolute to_ascii_lowercase
normalize_operand operand cwd is_win =
    let (posix, wildcard) = cut_wildcard (to_posix (nfkc_fold (expand_tilde operand is_win))) in
    let normal = absolute posix cwd in
    to_ascii_lowercase (
      if wildcard == []
      then normal
      else if normal == codes "/"
      then wildcard
      else normal ++ wildcard)
