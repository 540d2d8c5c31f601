-- ===== src/Proxy/Repetition/Runs.antt =====
-- src/proxy/sanitize.rs: what the first loop of RepetitionDetector::feed lets pass.
use anser.Prelude.{ℕ, zero, suc, ◌+◌, ◌≤◌, ◌<◌, ◌≡◌, refl, ap, sym, ◌∙◌, List, [], ◌∷◌, ◌++◌, arith}
use mathlib.Core.Path.{subst}
use anser.Prelude.Text.{Text}
use anser.Prelude.Lines.{and_then, Flow, go, stop}
use anser.Prelude.Lines.Cuts.{and_then_assoc, and_then_cong, go_of_and_then, concat}
use anser.Proxy.Repetition.{
  RepetitionDetector, quiet, Search, found, absent, panicked, judge, after_chars, limit_for,
  feed_char, feed_chars, feed_window, feed,
}

abbrev pub replicate : ℕ → ℕ → Text
replicate zero c = []
replicate (suc n) c = c ∷ replicate n c

-- No character stands in a row as often as its limit.
unfoldable pub Bounded : Text → Type 0
Bounded text =
    (before after : Text) (c n : ℕ) → text ≡ before ++ replicate n c ++ after → n < limit_for c

limit_for_pos : (c : ℕ) → 2 ≤ limit_for c
unfolding limit_for
limit_for_pos c = ground arith

feed_char_go :
    (c last count l k : ℕ)
    → feed_char c (last, count) ≡ go (l, k)
    → (l ≡ c) × (1 ≤ k) × (k < limit_for c)
unfolding feed_char
feed_char_go c last count l k h = ground (arith, limit_for_pos c)

feed_char_same : (c count l k : ℕ) → feed_char c (c, count) ≡ go (l, k) → k ≡ count + 1
unfolding feed_char
feed_char_same c count l k h = ground arith

run_count :
    (n c count l k : ℕ)
    → count < limit_for c
    → feed_chars (replicate n c) (c, count) ≡ go (l, k)
    → (k ≡ count + n) × (k < limit_for c)
unfolding feed_chars
run_count zero c count l k lt h = ground arith
run_count (suc n) c count l k lt h =
    let ((l1, k1), first, later) = go_of_and_then (feed_char c (c, count)) _ (l, k) h in
    let (at, _, below) = feed_char_go c c count l1 k1 first in
    let rest =
      run_count n c k1 l k below
        (subst (λ v. feed_chars (replicate n c) (v, k1) ≡ go (l, k)) at later) in
    omega (arith, rest, feed_char_same c count l1 k1 first)

feed_chars-append :
    (xs ys : Text) (at : ℕ × ℕ)
    → feed_chars (xs ++ ys) at ≡ and_then (feed_chars xs at) (λ next. feed_chars ys next)
unfolding feed_chars
feed_chars-append [] ys at = refl
feed_chars-append (x ∷ xs) ys at =
    and_then_cong (feed_char x at) _ _ (λ next. feed_chars-append xs ys next)
    ∙ sym (and_then_assoc (feed_char x at) _ _)

run_passes : (n c : ℕ) (at next : ℕ × ℕ) → feed_chars (replicate n c) at ≡ go next → n < limit_for c
unfolding feed_chars
run_passes zero c at next h = omega (arith, limit_for_pos c)
run_passes (suc n) c (last, count) (l, k) h =
    let ((l1, k1), first, later) = go_of_and_then (feed_char c (last, count)) _ (l, k) h in
    let (at, pos, below) = feed_char_go c last count l1 k1 first in
    omega (
      arith,
      run_count n c k1 l k below
          (subst (λ v. feed_chars (replicate n c) (v, k1) ≡ go (l, k)) at later),
    )

-- What the loop lets pass, from any state, is bounded.
feed_chars-Bounded : (text : Text) (at next : ℕ × ℕ) → feed_chars text at ≡ go next → Bounded text
unfolding Bounded
feed_chars-Bounded text at next h before after c n same =
    let (s, both, _) = go_of_and_then (feed_chars (before ++ replicate n c) at) _ next (
      sym (feed_chars-append (before ++ replicate n c) after at)
      ∙ ap (λ t. feed_chars t at) (sym same)
      ∙ h) in
    let (s1, _, run) =
      go_of_and_then (feed_chars before at) _ s
        (sym (feed_chars-append before (replicate n c) at) ∙ both) in
    run_passes n c s1 s run

-- Pieces of a text that a detector takes one after the other, all of them quietly.
unfoldable pub Passes : List Text → RepetitionDetector → RepetitionDetector → Type 0
Passes [] d e = d ≡ e
Passes (t ∷ ts) d e = (next : RepetitionDetector) × (feed t d ≡ quiet next) × Passes ts next e

judge-quiet : (s : Search) (d e : RepetitionDetector) → judge s d ≡ quiet e → d ≡ e
judge-quiet (found unit) d e h = absurd (cc)
judge-quiet absent d e h = ground arith
judge-quiet panicked d e h = absurd (cc)

after_chars-quiet :
    (m : Flow (ℕ × ℕ) (ℕ × ℕ)) (text : Text) (d e : RepetitionDetector)
    → after_chars m text d ≡ quiet e
    → m ≡ go (e.last_char, e.char_repeat_count)
unfolding after_chars feed_window
after_chars-quiet (go (last, count)) text d e h =
    ap (λ x. go (x.last_char, x.char_repeat_count)) (judge-quiet _ _ e h)
after_chars-quiet (stop (ch, count)) text d e h = absurd (cc)

feed-quiet :
    (text : Text) (d e : RepetitionDetector)
    → feed text d ≡ quiet e
    → feed_chars text (d.last_char, d.char_repeat_count) ≡ go (e.last_char, e.char_repeat_count)
unfolding feed feed_chars
feed-quiet [] d e h = ap (λ x. go (x.last_char, x.char_repeat_count)) (judge-quiet absent d e h)
feed-quiet (c ∷ text) d e h = after_chars-quiet _ (c ∷ text) d e h

Passes-feed_chars :
    (ts : List Text) (d e : RepetitionDetector)
    → Passes ts d e
    → feed_chars (concat ts) (d.last_char, d.char_repeat_count)
      ≡ go (e.last_char, e.char_repeat_count)
unfolding Passes feed_chars concat
Passes-feed_chars [] d e h = ap (λ x. go (x.last_char, x.char_repeat_count)) h
Passes-feed_chars (t ∷ ts) d e (next, first, rest) =
    feed_chars-append t (concat ts) _
    ∙ ap (λ m. and_then m (λ at. feed_chars (concat ts) at)) (feed-quiet t d next first)
    ∙ Passes-feed_chars ts next e rest

-- A text that the detector took quietly, in whatever pieces and from whatever state, has no character
-- as often in a row as the limit of that character.
pub Passes-Bounded :
    (ts : List Text) (d e : RepetitionDetector) → Passes ts d e → Bounded (concat ts)
Passes-Bounded ts d e h = feed_chars-Bounded (concat ts) _ _ (Passes-feed_chars ts d e h)
