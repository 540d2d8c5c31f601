-- ===== src/Tools/Shell/Words/Quoting.antt =====
-- src/tools/shell.rs: words that stand in quotes come through tokenize and split_segments as they are.
use anser.Prelude.{
  Bool-cases, ℕ, ◌≡◌, ◌≢◌, refl, ap, sym, ◌∙◌, false, ◌||◌, none, some, List, [], ◌∷◌, ◌++◌, map,
  reverse, nat_eqb, All, inl, inr, Bool-cases,
}
use mathlib.Core.List.{append_assoc, append-nil, reverse-append, reverse-reverse}
use anser.Prelude.Text.{Text, trim, trim_start, is_whitespace}
use anser.Tools.Paths.{contains_char}
use anser.Tools.Edits.{joined}
use anser.Tools.Shell.Words.{
  read_words, push_word, is_quote, tokenize, read_segments, flush_seg, plain, quoted,
  split_segments, is_operator, is_separator,
}

abbrev pub quote : Text → Text
quote w = 34 ∷ w ++ 34 ∷ []

-- The words in double quotes, with blanks between them.
abbrev pub print : List Text → Text
print ws = joined (32 ∷ []) (map quote ws)

-- A word that can be quoted.
pub record IsQuotable (w : Text) : Type 0 where
  pub filled : w ≢ []
  pub unquoted : contains_char 34 w ≡ false

-- A character that differs from the quote, and the rest of the word.
unquoted_cons :
    (c : ℕ) (w : Text)
    → contains_char 34 (c ∷ w) ≡ false
    → (nat_eqb 34 c ≡ false) × (contains_char 34 w ≡ false)
unfolding contains_char
unquoted_cons c w h = elim (Bool-cases (nat_eqb 34 c)) [
  | inl same ↦ absurd (cc)
  | inr other ↦ (other, sym (ap (λ b. b || contains_char 34 w) other) ∙ h)
]

read_words-quoted :
    (cur w rest : Text)
    → contains_char 34 w ≡ false
    → read_words cur (some 34) (w ++ 34 ∷ rest) ≡ read_words (cur ++ w) none rest
unfolding read_words
read_words-quoted cur [] rest h = ap (λ t. read_words t none rest) (sym (append-nil cur))
read_words-quoted cur (c ∷ w) rest h =
    let (other, tail) = unquoted_cons c w h in
    rw (other, read_words-quoted (cur ++ c ∷ []) w rest tail)
      (ap (λ t. read_words t none rest) (append_assoc cur (c ∷ []) w))

read_segments-quoted :
    (cur w rest : Text)
    → contains_char 34 w ≡ false
    → read_segments cur (quoted 34) (w ++ 34 ∷ rest)
      ≡ read_segments (cur ++ (w ++ 34 ∷ [])) plain rest
unfolding read_segments
read_segments-quoted cur [] rest h = refl
read_segments-quoted cur (c ∷ w) rest h =
    let (other, tail) = unquoted_cons c w h in
    rw (other, read_segments-quoted (cur ++ c ∷ []) w rest tail)
      (ap (λ t. read_segments t plain rest) (append_assoc cur (c ∷ []) (w ++ 34 ∷ [])))

print_cons : (w u : Text) (ws : List Text) → print (w ∷ u ∷ ws) ≡ 34 ∷ w ++ 34 ∷ 32 ∷ print (u ∷ ws)
unfolding joined
print_cons w u ws =
    append_assoc (quote w) (32 ∷ []) (print (u ∷ ws))
    ∙ ap (λ t. 34 ∷ t) (append_assoc w (34 ∷ []) (32 ∷ print (u ∷ ws)))

push_word-filled : (w : Text) (ws : List Text) → w ≢ [] → push_word w ws ≡ w ∷ ws
unfolding push_word
push_word-filled [] ws h = absurd (h refl)
push_word-filled (c ∷ w) ws h = refl

-- Words that are put in double quotes, with blanks between them, are the words that tokenize gives,
-- whatever else they hold, where none of them is empty or holds a double quote.
pub tokenize-print : (ws : List Text) → All IsQuotable ws → tokenize (print ws) ≡ ws
unfolding tokenize read_words joined is_quote push_word
tokenize-print [] h = refl
tokenize-print (w ∷ []) (h, hs) =
    read_words-quoted [] w [] h.unquoted ∙ push_word-filled w [] h.filled
tokenize-print (w ∷ u ∷ ws) (h, hs) =
    ap (λ t. read_words [] none t) (print_cons w u ws)
    ∙ read_words-quoted [] w (32 ∷ print (u ∷ ws)) h.unquoted
    ∙ push_word-filled w (read_words [] none (print (u ∷ ws))) h.filled
    ∙ ap (λ t. w ∷ t) (tokenize-print (u ∷ ws) hs)

read_segments-print :
    (cur w : Text) (ws : List Text)
    → All IsQuotable (w ∷ ws)
    → read_segments cur plain (print (w ∷ ws)) ≡ flush_seg (cur ++ print (w ∷ ws)) []
unfolding read_segments joined is_quote is_operator is_separator
read_segments-print cur w [] (h, hs) =
    read_segments-quoted (cur ++ 34 ∷ []) w [] h.unquoted
    ∙ ap (λ t. flush_seg t []) (append_assoc cur (34 ∷ []) (w ++ 34 ∷ []))
read_segments-print cur w (u ∷ ws) (h, hs) =
    let rest = 32 ∷ print (u ∷ ws) in
    let before = (cur ++ 34 ∷ []) ++ (w ++ 34 ∷ []) in
    ap (read_segments cur plain) (print_cons w u ws)
    ∙ read_segments-quoted (cur ++ 34 ∷ []) w rest h.unquoted
    ∙ read_segments-print (before ++ 32 ∷ []) u ws hs
    ∙ ap (λ t. flush_seg t [])
        (append_assoc before (32 ∷ []) (print (u ∷ ws))
          ∙ append_assoc (cur ++ 34 ∷ []) (w ++ 34 ∷ []) rest
          ∙ append_assoc cur (34 ∷ []) ((w ++ 34 ∷ []) ++ rest)
          ∙ ap (λ t. cur ++ t) (sym (append_assoc (quote w) (32 ∷ []) (print (u ∷ ws)))))

-- A print ends as it begins.
print_ends : (w : Text) (ws : List Text) → (m : Text) × (print (w ∷ ws) ≡ 34 ∷ m ++ 34 ∷ [])
unfolding joined
print_ends w [] = (w, refl)
print_ends w (u ∷ ws) =
    let (m, e) = print_ends u ws in
    (
      (w ++ 34 ∷ []) ++ 32 ∷ 34 ∷ m,
      append_assoc (quote w) (32 ∷ []) (print (u ∷ ws))
          ∙ ap (λ t. 34 ∷ (w ++ 34 ∷ []) ++ 32 ∷ t) e
          ∙ ap (λ t. 34 ∷ t) (sym (append_assoc (w ++ 34 ∷ []) (32 ∷ 34 ∷ m) (34 ∷ []))),
    )

trim_quoted : (m : Text) → trim (34 ∷ m ++ 34 ∷ []) ≡ 34 ∷ m ++ 34 ∷ []
unfolding trim trim_start is_whitespace
trim_quoted m =
    ap (λ t. reverse (trim_start t)) (reverse-append (34 ∷ m) (34 ∷ []))
    ∙ ap reverse (sym (reverse-append (34 ∷ m) (34 ∷ [])))
    ∙ reverse-reverse (34 ∷ m ++ 34 ∷ [])

pub trim-print : (w : Text) (ws : List Text) → trim (print (w ∷ ws)) ≡ print (w ∷ ws)
trim-print w ws = let (m, e) = print_ends w ws in ap trim e ∙ trim_quoted m ∙ sym e

-- One segment, since every separator stands in quotes.
pub split_segments-print :
    (w : Text) (ws : List Text)
    → All IsQuotable (w ∷ ws)
    → split_segments (print (w ∷ ws)) ≡ print (w ∷ ws) ∷ []
unfolding split_segments flush_seg
split_segments-print w ws h =
    let (m, e) = print_ends w ws in
    read_segments-print [] w ws h ∙ ap (λ t. push_word t []) (trim-print w ws ∙ e) ∙ rw (e) refl

pub split_segments-words :
    (ws : List Text) → ws ≢ [] → All IsQuotable ws → split_segments (print ws) ≡ print ws ∷ []
split_segments-words [] some_word h = absurd (some_word refl)
split_segments-words (w ∷ ws) some_word h = split_segments-print w ws h
