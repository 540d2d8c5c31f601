-- ===== src/Proxy/Repetition/Patterns.antt =====
-- src/proxy/sanitize.rs: the patterns that RepetitionDetector::feed reports.
use anser.Prelude.{ℕ, ◌≤◌, ◌≡◌, ap, sym, ◌∙◌, false, [], ◌∷◌, ◌++◌, reverse, arith}
use mathlib.Core.Path.{subst}
use mathlib.Core.List.{reverse-append, reverse-reverse}
use anser.Prelude.Text.{text_key, Text}
use anser.Prelude.Lines.{Flow, go, stop}
use anser.Engine.Stream.{utf8_len}
use anser.Proxy.Repetition.{
  RepetitionDetector, pattern_of, repeats, is_pure, trim_window, feed_window, feed_chars,
  after_chars, feed, pattern_repeat_count,
}
use anser.Proxy.Repetition.Windows.{
  copies, utf8_len-reverse, is_pure-reverse, reverse-copies, Loops, try_units-found, judge-pattern,
}

-- The text of the detector ends with the copies of a unit.
pub record EndsWith (text unit : Text) : Type 0 where
  pub impure : is_pure unit ≡ false
  pub four : 4 ≤ utf8_len unit
  pub most : utf8_len unit ≤ 32
  pub before : Text
  pub repeats_of : text ≡ before ++ copies pattern_repeat_count unit

EndsWith-reverse :
    (window unit : Text) → Loops (reverse window) unit → EndsWith window (reverse unit)
EndsWith-reverse window unit l = record {
  impure = is_pure-reverse unit ∙ l.impure;
  four = omega (arith, utf8_len-reverse unit, l.four);
  most = omega (arith, utf8_len-reverse unit, l.most);
  before = reverse l.before;
  repeats_of =
      sym (reverse-reverse window)
      ∙ ap reverse l.repeats_of
      ∙ reverse-append (copies pattern_repeat_count unit) l.before
      ∙ ap (λ t. reverse l.before ++ t) (reverse-copies pattern_repeat_count unit);
}

feed_window-pattern :
    (joined : Text) (at : ℕ × ℕ) (e : RepetitionDetector) (unit : Text) (count : ℕ)
    → feed_window joined at ≡ repeats (pattern_of unit count) e
    → (count ≡ pattern_repeat_count) × EndsWith e.rolling unit
unfolding feed_window
feed_window-pattern joined (last, c) e unit count h =
    let (u, s, same, n, d) = judge-pattern _ _ e unit count h in
    let loops =
      try_units-found 29 4 (reverse (trim_window joined)) u (omega arith) (omega arith) s in
    (
      n,
      subst (λ t. EndsWith t unit) (ap (λ x. x.rolling) d)
          (rw same (EndsWith-reverse (trim_window joined) u loops)),
    )

after_chars-pattern :
    (m : Flow (ℕ × ℕ) (ℕ × ℕ)) (text : Text) (d e : RepetitionDetector) (unit : Text) (count : ℕ)
    → after_chars m text d ≡ repeats (pattern_of unit count) e
    → (count ≡ pattern_repeat_count) × EndsWith e.rolling unit
unfolding after_chars
after_chars-pattern (go at) text d e unit count h =
    feed_window-pattern (d.rolling ++ text) at e unit count h
after_chars-pattern (stop (ch, n)) text d e unit count h = absurd (cc)

-- A report of a pattern is right: the text that the detector remembers ends with forty copies of the
-- unit that it names, which has 4 to 32 bytes and a character that is neither of code nor of a divider.
pub feed-pattern :
    (text : Text) (d e : RepetitionDetector) (unit : Text) (count : ℕ)
    → feed text d ≡ repeats (pattern_of unit count) e
    → (count ≡ pattern_repeat_count) × EndsWith e.rolling unit
unfolding feed
feed-pattern [] d e unit count h = absurd (cc)
feed-pattern (c ∷ text) d e unit count h =
    after_chars-pattern (feed_chars (c ∷ text) (d.last_char, d.char_repeat_count)) (c ∷ text) d e
      unit count h
