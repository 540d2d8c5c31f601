-- ===== src/Proxy/Repetition.antt =====
-- src/proxy/sanitize.rs: RepetitionDetector. A text is its list of characters; lengths and offsets
-- are in bytes, as in the code.
use anser.Prelude.{
  ℕ, zero, suc, ◌+◌, ◌-◌, ◌*◌, Bool, true, false, ◌||◌, ◌&&◌, String, Option, none, some, List, [],
  ◌∷◌, ◌++◌, ltb, leb, nat_eqb, if◌then◌else◌, reverse, length, ◌==◌,
}
use anser.Prelude.Text.{text_key, Text, codes}
use anser.Prelude.Lines.{Flow, go, stop, and_then}
use anser.Engine.Stream.{utf8_len, utf8_width}
pub mod Runs
pub mod Windows
pub mod Patterns
pub mod Panics

unfoldable pub listed : ℕ → Text → Bool
listed c [] = false
listed c (x ∷ xs) = nat_eqb c x || listed c xs

abbrev pub code_repeat_chars : Text
code_repeat_chars = codes "+./\\<>|:;()[]{}'\"!?,~^&%$@"

abbrev pub divider_chars : Text
divider_chars = codes "-=*# \t\n_"

abbrev pub code_limit : ℕ
code_limit = 1000

abbrev pub divider_limit : ℕ
divider_limit = 250

abbrev pub default_limit : ℕ
default_limit = 100

abbrev pub pattern_repeat_count : ℕ
pattern_repeat_count = 40

abbrev pub rolling_window : ℕ
rolling_window = 1500

pub data Repetition : Type 0 where
  character : (ch count : ℕ) → Repetition
  pattern_of : (unit : Text) (count : ℕ) → Repetition

pub record RepetitionDetector : Type 0 where
  pub last_char : ℕ
  pub char_repeat_count : ℕ
  pub rolling : Text

abbrev pub new_detector : RepetitionDetector
new_detector = record { last_char = 0; char_repeat_count = 0; rolling = [] }

unfoldable pub limit_for : ℕ → ℕ
unfolding listed
limit_for ch =
    if listed ch code_repeat_chars
    then code_limit
    else if listed ch divider_chars
    then divider_limit
    else default_limit

-- One character of the first loop, on `last_char` and `char_repeat_count`. It stops at a character
-- and its count.
unfoldable pub feed_char : ℕ → ℕ × ℕ → Flow (ℕ × ℕ) (ℕ × ℕ)
unfolding limit_for
feed_char ch (last, count) =
    if nat_eqb ch last
    then if leb (limit_for ch) (count + 1) then stop (ch, count + 1) else go (last, count + 1)
    else go (ch, 1)

unfoldable pub feed_chars : Text → ℕ × ℕ → Flow (ℕ × ℕ) (ℕ × ℕ)
unfolding feed_char
feed_chars [] at = go at
feed_chars (ch ∷ text) at = and_then (feed_char ch at) (λ next. feed_chars text next)

abbrev pub drop : ℕ → Text → Text
drop zero t = t
drop (suc n) [] = []
drop (suc n) (c ∷ t) = drop n t

-- Cuts the window. The excess is a number of bytes and is taken as one of characters; where there
-- are not that many, `unwrap_or(0)` cuts nothing.
unfoldable pub trim_window : Text → Text
unfolding utf8_len
trim_window t =
    let excess = utf8_len t - rolling_window in
    if ltb rolling_window (utf8_len t)
    then if ltb excess (length t) then drop excess t else t
    else t

-- Takes characters of exactly `n` bytes; `none` where the offset is inside a character, at which
-- the slice of the code panics.
unfoldable pub take_bytes : ℕ → Text → Option (Text × Text)
unfolding utf8_width
take_bytes n [] = if nat_eqb n 0 then some ([], []) else none
take_bytes n (c ∷ t) =
    let rest = take_bytes (n - utf8_width c) t in
    if nat_eqb n 0
    then some ([], c ∷ t)
    else if ltb n (utf8_width c)
    then none
    else elim rest [ none ↦ none | some (unit, after) ↦ some (c ∷ unit, after) ]

unfoldable pub may_repeat : ℕ → Bool
unfolding listed
may_repeat c = listed c code_repeat_chars || listed c divider_chars

unfoldable pub is_pure : Text → Bool
unfolding may_repeat
is_pure [] = true
is_pure (c ∷ unit) = may_repeat c && is_pure unit

pub data Search : Type 0 where
  found : (unit : Text) → Search
  absent panicked : Search

-- The segments before the last one, read from the end of the window: the text is reversed.
unfoldable pub repeated : ℕ → ℕ → Text → Text → Search
unfolding take_bytes
repeated zero unit_len unit rest = found unit
repeated (suc r) unit_len unit rest = elim (take_bytes unit_len rest) [
  | none ↦ panicked
  | some (seg, before) ↦
      let onward = repeated r unit_len unit before in if seg == unit then onward else absent
]

-- The last segment, and what stands before it.
unfoldable pub check_slice : ℕ → Option (Text × Text) → Search
unfolding is_pure repeated
check_slice unit_len none = panicked
check_slice unit_len (some (unit, rest)) =
    if is_pure unit then absent else repeated (pattern_repeat_count - 1) unit_len unit rest

-- One length of a unit, on the reversed window.
unfoldable pub try_unit : ℕ → Text → Search
unfolding take_bytes check_slice utf8_len
try_unit unit_len window =
    let tried = check_slice unit_len (take_bytes unit_len window) in
    if ltb (utf8_len window) (unit_len * pattern_repeat_count) then absent else tried

-- `rounds` lengths from `unit_len` on.
unfoldable pub try_units : (rounds unit_len : ℕ) → Text → Search
unfolding try_unit
try_units zero unit_len window = absent
try_units (suc rounds) unit_len window = elim (try_unit unit_len window) [
  | found unit ↦ found unit
  | absent ↦ try_units rounds (suc unit_len) window
  | panicked ↦ panicked
]

pub data Fed : Type 0 where
  quiet : RepetitionDetector → Fed
  repeats : Repetition → RepetitionDetector → Fed
  panics : Fed

abbrev pub judge : Search → RepetitionDetector → Fed
judge (found unit) d = repeats (pattern_of (reverse unit) pattern_repeat_count) d
judge absent d = quiet d
judge panicked d = panics

-- The second part of `feed`, on the window with the new text.
unfoldable pub feed_window : Text → ℕ × ℕ → Fed
unfolding trim_window try_units
feed_window joined (last, count) =
    let window = trim_window joined in
    judge (try_units 29 4 (reverse window))
      (record { last_char = last; char_repeat_count = count; rolling = window })

-- What the first part decides. A run that is reported stays in the detector.
unfoldable pub after_chars : Flow (ℕ × ℕ) (ℕ × ℕ) → Text → RepetitionDetector → Fed
unfolding feed_window
after_chars (go at) text d = feed_window (d.rolling ++ text) at
after_chars (stop (ch, count)) text d =
    repeats (character ch count) (record d { last_char = ch; char_repeat_count = count })

unfoldable pub feed : Text → RepetitionDetector → Fed
unfolding feed_chars after_chars
feed [] d = quiet d
feed (c ∷ text) d =
    after_chars (feed_chars (c ∷ text) (d.last_char, d.char_repeat_count)) (c ∷ text) d
