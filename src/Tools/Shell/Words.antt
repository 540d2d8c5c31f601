-- ===== src/Tools/Shell/Words.antt =====
-- src/tools/shell.rs: tokenize and split_segments. A loop over the characters keeps what it has read
-- of the current word or segment, and the quote that is open.
use anser.Prelude.{
  ℕ, zero, suc, Bool, true, false, ◌||◌, ◌&&◌, Option, none, some, List, [], ◌∷◌, ◌++◌, nat_eqb,
  if◌then◌else◌,
}
use anser.Prelude.Text.{Text, trim}
pub mod Quoting

unfoldable pub is_quote : ℕ → Bool
is_quote c = nat_eqb 34 c || nat_eqb 39 c

-- A word or a segment that is not empty.
unfoldable pub push_word : Text → List Text → List Text
push_word [] words = words
push_word (c ∷ cur) words = (c ∷ cur) ∷ words

unfoldable pub read_words : (cur : Text) → (quote : Option ℕ) → Text → List Text
unfolding is_quote push_word
read_words cur quote [] = push_word cur []
read_words cur (some q) (c ∷ cs) =
    let closed = read_words cur none cs in
    let onward = read_words (cur ++ c ∷ []) (some q) cs in if nat_eqb q c then closed else onward
read_words cur none (c ∷ cs) =
    let opened = read_words cur (some c) cs in
    let parted = read_words [] none cs in
    let onward = read_words (cur ++ c ∷ []) none cs in
    if is_quote c
    then opened
    else if nat_eqb 32 c || nat_eqb 9 c
    then push_word cur parted
    else onward

unfoldable pub tokenize : Text → List Text
unfolding read_words
tokenize cmd = read_words [] none cmd

unfoldable pub flush_seg : (cur : Text) → List Text → List Text
unfolding push_word trim
flush_seg cur segments = push_word (trim cur) segments

-- Where the loop stands: outside of quotes, inside of one, or before the second character of an
-- operator.
pub data Place : Type 0 where
  plain second : Place
  quoted : (quote : ℕ) → Place

unfoldable pub next_is : ℕ → Text → Bool
next_is c [] = false
next_is c (d ∷ cs) = nat_eqb c d

-- `&&` and `||`.
unfoldable pub is_operator : ℕ → Text → Bool
unfolding next_is
is_operator c cs = (nat_eqb 38 c && next_is 38 cs) || (nat_eqb 124 c && next_is 124 cs)

unfoldable pub is_separator : ℕ → Bool
is_separator c = nat_eqb 59 c || nat_eqb 124 c || nat_eqb 10 c || nat_eqb 13 c

unfoldable pub read_segments : (cur : Text) → Place → Text → List Text
unfolding is_quote is_operator is_separator flush_seg
read_segments cur place [] = flush_seg cur []
read_segments cur second (c ∷ cs) = read_segments cur plain cs
read_segments cur (quoted q) (c ∷ cs) =
    let closed = read_segments (cur ++ c ∷ []) plain cs in
    let onward = read_segments (cur ++ c ∷ []) (quoted q) cs in
    if nat_eqb q c then closed else onward
read_segments cur plain (c ∷ cs) =
    let opened = read_segments (cur ++ c ∷ []) (quoted c) cs in
    let onward = read_segments (cur ++ c ∷ []) plain cs in
    let behind_two = read_segments [] second cs in
    let behind_one = read_segments [] plain cs in
    if is_quote c
    then opened
    else if is_operator c cs
    then flush_seg cur behind_two
    else if is_separator c
    then flush_seg cur behind_one
    else onward

unfoldable pub split_segments : Text → List Text
unfolding read_segments
split_segments cmd = read_segments [] plain cmd
