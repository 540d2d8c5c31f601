-- ===== src/Tools/Shell/Roots.antt =====
-- src/tools/shell.rs: protected_roots, is_protected_root and its parts.
use anser.Prelude.{
  ℕ, Bool, true, false, not, ◌||◌, ◌&&◌, Option, none, some, List, [], ◌∷◌, ◌++◌, map, reverse,
  nat_eqb, leb, if◌then◌else◌, ◌==◌,
}
use anser.Prelude.Text.{text_key, Text, codes, strip_prefix}
use anser.Engine.Stream.{utf8_len}
use anser.Proxy.Repetition.{take_bytes}
use anser.Tools.Paths.{contains_char}
use anser.Tools.Shell.Operands.{one_of, to_ascii_lowercase}

abbrev pub letters : Text
letters = codes "abcdefghijklmnopqrstuvwxyz"

abbrev pub protected_roots : List Text
protected_roots =
    map codes ("/" ∷ "/root" ∷ "/home" ∷ [])
    ++ map (λ c. codes "/mnt/" ++ c ∷ []) letters
    ++ map codes ("/mnt/c/windows" ∷ "/mnt/c/users" ∷ "/mnt/c/program files" ∷ [])

unfoldable pub is_home_user : Text → Bool
unfolding strip_prefix contains_char
is_home_user p = elim (strip_prefix p (codes "/home/")) [
  | none ↦ false
  | some rest ↦ not (rest == []) && not (contains_char 47 rest)
]

unfoldable pub is_digit : ℕ → Bool
is_digit c = leb 48 c && leb c 57

-- `take_while`, and what follows.
unfoldable pub take_digits : Text → Text × Text
unfolding is_digit
take_digits [] = ([], [])
take_digits (c ∷ cs) =
    let (taken, rest) = take_digits cs in if is_digit c then (c ∷ taken, rest) else ([], c ∷ cs)

unfoldable pub is_disk_tail : Text → Bool
is_disk_tail [] = false
is_disk_tail (c ∷ cs) = leb 97 c && leb c 122 && (cs == [] || is_disk_tail cs)

unfoldable pub is_nvme_tail : Text → Bool
unfolding take_digits strip_prefix utf8_len
is_nvme_tail tail =
    let (d1, later) = take_digits tail in
    elim (strip_prefix later (codes "n")) [
      | none ↦ false
      | some rem ↦
          let (d2, end) = take_digits rem in
          not (d1 == []) && not (d2 == []) && nat_eqb (utf8_len rem) (utf8_len d2)
    ]

-- The tests on slices of the name; `none` where a slice panics.
unfoldable pub is_nvme : Text → Option Bool
unfolding utf8_len take_bytes is_nvme_tail
is_nvme name =
    if leb 5 (utf8_len name)
    then elim (take_bytes 4 name) [
      | none ↦ none
      | some (kind, tail) ↦ some (kind == codes "nvme" && is_nvme_tail tail)
    ]
    else some false

unfoldable pub is_device_name : Text → Option Bool
unfolding utf8_len take_bytes is_disk_tail is_nvme one_of
is_device_name name =
    if leb 3 (utf8_len name)
    then elim (take_bytes 2 name) [
      | none ↦ none
      | some (kind, tail) ↦
          if one_of kind (map codes ("sd" ∷ "hd" ∷ "vd" ∷ []))
          then some (is_disk_tail tail)
          else is_nvme name
    ]
    else some false

unfoldable pub strip_suffix : Text → Text → Option Text
unfolding strip_prefix
strip_suffix t s = elim (strip_prefix (reverse t) (reverse s)) [
  | none ↦ none
  | some before ↦ some (reverse before)
]

unfoldable pub is_dev_target : Text → Option Bool
unfolding strip_prefix strip_suffix is_device_name
is_dev_target p = elim (strip_prefix p (codes "/dev/")) [
  | none ↦ some false
  | some rest ↦ elim (strip_suffix rest (codes "/*")) [
    | some name ↦ is_device_name name
    | none ↦ is_device_name rest
  ]
]

unfoldable pub is_root_or_below : Text → List Text → Bool
is_root_or_below p [] = false
is_root_or_below p (root ∷ roots) =
    p == root
    || p == (if root == codes "/" then codes "/*" else root ++ codes "/*")
    || is_root_or_below p roots

unfoldable pub is_protected_root : Text → Option Bool
unfolding to_ascii_lowercase is_dev_target is_root_or_below is_home_user
is_protected_root path =
    let p = to_ascii_lowercase path in
    elim (is_dev_target p) [
      | none ↦ none
      | some true ↦ some true
      | some false ↦
          some (is_root_or_below p protected_roots || p == codes "/root" || is_home_user p)
    ]
