-- ===== src/Proxy/Repetition/Windows.antt =====
-- src/proxy/sanitize.rs: the search of RepetitionDetector::feed in the window of recent text, which is
-- read from its end.
use anser.Prelude.{
  ℕ, zero, suc, ◌+◌, ◌-◌, ◌*◌, ◌≤◌, ◌≡◌, refl, ap, sym, ◌∙◌, Bool, true, false, ◌&&◌, some, [], ◌∷◌,
  ◌++◌, ltb, nat_eqb, if◌then◌else◌, reverse, ◌==◌, arith, inl, inr, Bool-cases, Option-cases, ◌⊎◌,
}
use mathlib.Core.List.{append_assoc, append-nil, reverse-append, reverse-cons}
use anser.Prelude.Text.{text_key, Text}
use anser.Engine.Stream.{utf8_len, utf8_width}
use anser.Proxy.Repetition.{
  RepetitionDetector, pattern_of, repeats, Search, found, absent, panicked, judge, take_bytes,
  is_pure, repeated, check_slice, try_unit, try_units, may_repeat, pattern_repeat_count,
}

abbrev pub copies : ℕ → Text → Text
copies zero unit = []
copies (suc n) unit = unit ++ copies n unit

pub utf8_len-append : (s t : Text) → utf8_len (s ++ t) ≡ utf8_len s + utf8_len t
unfolding utf8_len
utf8_len-append [] t = omega arith
utf8_len-append (c ∷ s) t = omega (arith, utf8_len-append s t)

pub utf8_len-reverse : (t : Text) → utf8_len (reverse t) ≡ utf8_len t
utf8_len-reverse [] = refl
utf8_len-reverse (c ∷ t) = omega (
  arith,
  ap utf8_len (reverse-cons c t),
  utf8_len-append (reverse t) (c ∷ []),
  utf8_len-append (c ∷ []) t,
  utf8_len-reverse t,
)

pub &&_comm : (a b : Bool) → (a && b) ≡ (b && a)
&&_comm true b = ground arith
&&_comm false b = ground arith

pub is_pure-append : (s t : Text) → is_pure (s ++ t) ≡ (is_pure s && is_pure t)
unfolding is_pure
is_pure-append [] t = refl
is_pure-append (c ∷ s) t = elim (Bool-cases (may_repeat c)) [
  | inl e ↦ rw e (is_pure-append s t)
  | inr e ↦ rw e refl
]

pub is_pure-cons : (c : ℕ) (t : Text) → is_pure (t ++ c ∷ []) ≡ is_pure (c ∷ t)
is_pure-cons c t =
    is_pure-append t (c ∷ [])
    ∙ &&_comm (is_pure t) (is_pure (c ∷ []))
    ∙ sym (is_pure-append (c ∷ []) t)

pub is_pure-reverse : (t : Text) → is_pure (reverse t) ≡ is_pure t
is_pure-reverse [] = refl
is_pure-reverse (c ∷ t) =
    ap is_pure (reverse-cons c t)
    ∙ is_pure-append (reverse t) (c ∷ [])
    ∙ ap (λ b. b && is_pure (c ∷ [])) (is_pure-reverse t)
    ∙ sym (is_pure-append t (c ∷ []))
    ∙ is_pure-cons c t

-- A slice is empty, or starts with the first character.
pub take_bytes_cases :
    (n c : ℕ) (t unit rest : Text)
    → take_bytes n (c ∷ t) ≡ some (unit, rest)
    → ((n ≡ 0) × (unit ≡ []) × (rest ≡ c ∷ t))
      ⊎ ((utf8_width c ≤ n)
          × (u : Text) × (take_bytes (n - utf8_width c) t ≡ some (u, rest))
          × (unit ≡ c ∷ u))
unfolding take_bytes
take_bytes_cases n c t unit rest h = elim (Bool-cases (nat_eqb n 0)) [
  | inl none_left ↦ ground arith
  | inr more ↦ elim (Option-cases (take_bytes (n - utf8_width c) t)) [
    | inl e ↦ absurd (ground arith)
    | inr ((u, after), e) ↦ inr (ground arith)
  ]
]

pub utf8_len_cons : (c : ℕ) (t : Text) → utf8_len (c ∷ t) ≡ utf8_width c + utf8_len t
unfolding utf8_len
utf8_len_cons c t = refl

pub take_bytes_parts :
    (n : ℕ) (t unit rest : Text)
    → take_bytes n t ≡ some (unit, rest)
    → (t ≡ unit ++ rest) × (utf8_len unit ≡ n)
take_bytes_parts n [] unit rest h = unfold take_bytes in unfold utf8_len in ground arith
take_bytes_parts n (c ∷ t) unit rest h = elim (take_bytes_cases n c t unit rest h) [
  | inl (e, u, r) ↦ rw (e, u, r) (refl, unfold utf8_len in refl)
  | inr (le, u, e, same) ↦
      let (parts, size) = take_bytes_parts (n - utf8_width c) t u rest e in
      rw same (ap (λ x. c ∷ x) parts, omega (arith, utf8_len_cons c u, size))
]

pub repeated-some :
    (r unit_len : ℕ) (unit rest seg before : Text)
    → take_bytes unit_len rest ≡ some (seg, before)
    → repeated (suc r) unit_len unit rest
      ≡ (if seg == unit then repeated r unit_len unit before else absent)
unfolding repeated
repeated-some r unit_len unit rest seg before e = rw (e, repeated) refl

pub repeated-found :
    (r unit_len : ℕ) (unit rest v : Text)
    → repeated r unit_len unit rest ≡ found v
    → (v ≡ unit) × (before : Text) × (rest ≡ copies r unit ++ before)
unfolding repeated
repeated-found zero unit_len unit rest v h = (ground arith, rest, refl)
repeated-found (suc r) unit_len unit rest v h = elim (Option-cases (take_bytes unit_len rest)) [
  | inl e ↦ absurd (ground arith)
  | inr ((seg, before), e) ↦ elim (Bool-cases (seg == unit)) [
    | inr other ↦ absurd (ground (arith, repeated-some r unit_len unit rest seg before e))
    | inl same ↦
        let again = repeated-some r unit_len unit rest seg before e in
        let (at, first, later) = repeated-found r unit_len unit before v (ground (arith, again)) in
        (
          at,
          first,
          (take_bytes_parts unit_len rest seg before e).0
              ∙ ap (λ t. t ++ before) ((text_key.test_iff seg unit).0 same)
              ∙ ap (λ t. unit ++ t) later
              ∙ sym (append_assoc unit (copies r unit) first),
        )
  ]
]

pub copies_last : (n : ℕ) (unit : Text) → copies n unit ++ unit ≡ unit ++ copies n unit
copies_last zero unit = sym (append-nil unit)
copies_last (suc n) unit =
    append_assoc unit (copies n unit) unit ∙ ap (λ t. unit ++ t) (copies_last n unit)

pub reverse-copies : (n : ℕ) (unit : Text) → reverse (copies n unit) ≡ copies n (reverse unit)
reverse-copies zero unit = refl
reverse-copies (suc n) unit =
    reverse-append unit (copies n unit)
    ∙ ap (λ t. t ++ reverse unit) (reverse-copies n unit)
    ∙ copies_last n (reverse unit)

-- The window, read from its end, starts with the copies that were found.
pub record Loops (window unit : Text) : Type 0 where
  pub impure : is_pure unit ≡ false
  pub four : 4 ≤ utf8_len unit
  pub most : utf8_len unit ≤ 32
  pub before : Text
  pub repeats_of : window ≡ copies pattern_repeat_count unit ++ before

pub check_slice-found :
    (unit_len : ℕ) (window v : Text)
    → 4 ≤ unit_len
    → unit_len ≤ 32
    → check_slice unit_len (take_bytes unit_len window) ≡ found v
    → Loops window v
unfolding check_slice
check_slice-found unit_len window v low high h = elim (Option-cases (take_bytes unit_len window)) [
  | inl e ↦ absurd (cc (ap (check_slice unit_len) e, h))
  | inr ((unit, rest), e) ↦ elim (Bool-cases (is_pure unit)) [
    | inl p ↦ absurd (ground (arith, ap (check_slice unit_len) e))
    | inr p ↦
        let (at, before, more) =
          repeated-found 39 unit_len unit rest v (ground (arith, ap (check_slice unit_len) e)) in
        let (parts, size) = take_bytes_parts unit_len window unit rest e in
        rw at (record {
          impure = p;
          four = omega (arith, size);
          most = omega (arith, size);
          before = before;
          repeats_of =
              parts ∙ ap (λ t. unit ++ t) more ∙ sym (append_assoc unit (copies 39 unit) before);
        })
  ]
]

pub try_unit-found :
    (unit_len : ℕ) (window v : Text)
    → 4 ≤ unit_len
    → unit_len ≤ 32
    → try_unit unit_len window ≡ found v
    → Loops window v
unfolding try_unit
try_unit-found unit_len window v low high h =
    elim (Bool-cases (ltb (utf8_len window) (unit_len * pattern_repeat_count))) [
      | inl short ↦ absurd (ground arith)
      | inr enough ↦ check_slice-found unit_len window v low high (ground arith)
    ]

pub next_found :
    (s rest : Search) (v : Text)
    → elim s [ found unit ↦ found unit | absent ↦ rest | panicked ↦ panicked ] ≡ found v
    → (s ≡ found v) ⊎ (rest ≡ found v)
next_found (found unit) rest v h = inl h
next_found absent rest v h = inr h
next_found panicked rest v h = absurd (cc)

pub try_units-found :
    (rounds unit_len : ℕ) (window v : Text)
    → 4 ≤ unit_len
    → unit_len + rounds ≤ 33
    → try_units rounds unit_len window ≡ found v
    → Loops window v
unfolding try_units
try_units-found zero unit_len window v low high h = absurd (cc)
try_units-found (suc rounds) unit_len window v low high h =
    elim (next_found (try_unit unit_len window) (try_units rounds (suc unit_len) window) v h) [
      | inl here ↦ try_unit-found unit_len window v low (omega arith) here
      | inr later ↦ try_units-found rounds (suc unit_len) window v (omega arith) (omega arith) later
    ]

pub judge-pattern :
    (s : Search) (d e : RepetitionDetector) (unit : Text) (count : ℕ)
    → judge s d ≡ repeats (pattern_of unit count) e
    → (u : Text) × (s ≡ found u) × (unit ≡ reverse u) × (count ≡ pattern_repeat_count) × (d ≡ e)
judge-pattern (found u) d e unit count h = (u, refl, ground arith, ground arith, ground arith)
judge-pattern absent d e unit count h = absurd (cc)
judge-pattern panicked d e unit count h = absurd (cc)
