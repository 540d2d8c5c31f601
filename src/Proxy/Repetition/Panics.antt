-- ===== src/Proxy/Repetition/Panics.antt =====
-- src/proxy/sanitize.rs: where RepetitionDetector::feed panics.
use anser.Prelude.{ℕ, suc, ◌≤◌, ◌≡◌, refl, ap, ◌∙◌, none, [], ◌∷◌, ◌++◌, reverse, arith}
use anser.Prelude.{◌≢◌}
use mathlib.Core.List.{reverse-append}
use anser.Prelude.Text.{text_key, Text}
use anser.Prelude.Lines.{go}
use anser.Engine.Stream.{utf8_len, utf8_width}
use anser.Proxy.Repetition.{
  RepetitionDetector, panics, panicked, judge, take_bytes, check_slice, try_unit, try_units,
  trim_window, rolling_window, feed_window, feed_chars, after_chars, feed,
}
use anser.Proxy.Repetition.Windows.{utf8_len-reverse}

-- The fourth byte from the end lies inside a character where the last two have three bytes each.
take_bytes_wide :
    (a b : ℕ) (t : Text) → utf8_width a ≡ 3 → utf8_width b ≡ 3 → take_bytes 4 (b ∷ a ∷ t) ≡ none
unfolding take_bytes
take_bytes_wide a b t wide_a wide_b = rw (wide_b, wide_a) refl

trim_window_short : (t : Text) → utf8_len t ≤ rolling_window → trim_window t ≡ t
unfolding trim_window
trim_window_short t h = ground arith

try_unit_wide :
    (a b : ℕ) (t : Text)
    → utf8_width a ≡ 3
    → utf8_width b ≡ 3
    → 160 ≤ utf8_len (b ∷ a ∷ t)
    → try_unit 4 (b ∷ a ∷ t) ≡ panicked
unfolding try_unit check_slice
try_unit_wide a b t wide_a wide_b long =
    ground (arith, ap (check_slice 4) (take_bytes_wide a b t wide_a wide_b))

try_units_wide :
    (n a b : ℕ) (t : Text)
    → utf8_width a ≡ 3
    → utf8_width b ≡ 3
    → 160 ≤ utf8_len (b ∷ a ∷ t)
    → try_units (suc n) 4 (b ∷ a ∷ t) ≡ panicked
unfolding try_units
try_units_wide n a b t wide_a wide_b long =
    rw (try_unit_wide a b t wide_a wide_b long, try_units) refl

feed_window-panics :
    (before : Text) (a b : ℕ) (at : ℕ × ℕ)
    → utf8_width a ≡ 3
    → utf8_width b ≡ 3
    → 160 ≤ utf8_len (before ++ a ∷ b ∷ [])
    → utf8_len (before ++ a ∷ b ∷ []) ≤ rolling_window
    → feed_window (before ++ a ∷ b ∷ []) at ≡ panics
unfolding feed_window
feed_window-panics before a b (last, count) wide_a wide_b long short =
    let turned = reverse-append before (a ∷ b ∷ []) in
    let size = utf8_len-reverse (before ++ a ∷ b ∷ []) in
    let joined = before ++ a ∷ b ∷ [] in
    ap
      (λ s.
        judge s
          (record { last_char = last; char_repeat_count = count; rolling = trim_window joined }))
      (ap (λ t. try_units 29 4 (reverse t)) (trim_window_short (before ++ a ∷ b ∷ []) short)
        ∙ ap (try_units 29 4) turned
        ∙ try_units_wide 28 a b (reverse before) wide_a wide_b
            (omega (arith, size, ap utf8_len turned)))

-- A detector whose text, with the text that it is fed, has between 160 and 1500 bytes, so that none of
-- it is cut, and that finds no run at its limit, panics if that text ends with two characters of three
-- bytes: the slice of its last four bytes starts inside a character.
pub feed-panics :
    (text before : Text) (a b : ℕ) (d : RepetitionDetector) (at : ℕ × ℕ)
    → feed_chars text (d.last_char, d.char_repeat_count) ≡ go at
    → text ≢ []
    → d.rolling ++ text ≡ before ++ a ∷ b ∷ []
    → utf8_width a ≡ 3
    → utf8_width b ≡ 3
    → 160 ≤ utf8_len (d.rolling ++ text)
    → utf8_len (d.rolling ++ text) ≤ rolling_window
    → feed text d ≡ panics
unfolding feed after_chars
feed-panics [] before a b d at passes some_text ends wide_a wide_b long short =
    absurd (some_text refl)
feed-panics (c ∷ text) before a b d at passes some_text ends wide_a wide_b long short =
    ap (λ m. after_chars m (c ∷ text) d) passes
    ∙ ap (λ t. feed_window t at) ends
    ∙ feed_window-panics before a b at wide_a wide_b (omega (arith, ap utf8_len ends))
        (omega (arith, ap utf8_len ends))
