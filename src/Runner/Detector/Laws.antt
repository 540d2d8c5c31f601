-- ===== src/Runner/Detector/Laws.antt =====
-- What the detector of src/runner/loop_detector.rs reports, against the whole past.
use anser.Prelude.{
  ◌||◌, ℕ, zero, suc, ◌≤◌, ◌<◌, ◌≡◌, refl, true, false, List, [], ◌∷◌, ◌++◌, reverse, if◌then◌else◌,
  nat_key, min, leb, length, length-append, length-reverse, arith, sym, ◌∙◌, ap, Bool-cases, inl,
  inr,
}
use mathlib.Core.List.{reverse-append, reverse-cons}
use anser.Runner.Detector.{
  LoopState, ok, advisory, loop_detected, LoopDetector, new, push, streak, record_hash, answers,
}

abbrev take : ℕ → List ℕ → List ℕ
take zero xs = []
take (suc n) [] = []
take (suc n) (x ∷ xs) = x ∷ take n xs

-- The history is the newest part of the past, whose newest action stands first.
abbrev pub Tracks : LoopDetector → List ℕ → Type 0
Tracks d past = (reverse d.history ≡ take d.window past) × (0 < d.window)

streak-take : (n last : ℕ) (past : List ℕ) → streak last (take n past) ≡ min n (streak last past)
unfolding streak
streak-take zero last past = omega arith
streak-take (suc n) last [] = omega arith
streak-take (suc n) last (h ∷ past) = ground (arith, streak-take n last past)

length-take : (n : ℕ) (past : List ℕ) → length (take n past) ≡ min n (length past)
length-take zero past = omega arith
length-take (suc n) [] = omega arith
length-take (suc n) (x ∷ past) = omega (arith, length-take n past)

take-append : (xs ys : List ℕ) → take (length xs) (xs ++ ys) ≡ xs
take-append [] ys = refl
take-append (x ∷ xs) ys = ap (λ t. x ∷ t) (take-append xs ys)

take-take : (n : ℕ) (past : List ℕ) → take n (take (suc n) past) ≡ take n past
take-take zero past = refl
take-take (suc n) [] = refl
take-take (suc n) (x ∷ past) = ap (λ t. x ∷ t) (take-take n past)

take_short :
    (n : ℕ) (past : List ℕ) → length (take (suc n) past) ≤ n → take (suc n) past ≡ take n past
take_short zero [] h = refl
take_short zero (x ∷ past) h = absurd (omega arith)
take_short (suc n) [] h = refl
take_short (suc n) (x ∷ past) h = ap (λ t. x ∷ t) (take_short n past (omega arith))

-- A push onto a history that is full drops its oldest entry.
push_full :
    (n hash x : ℕ) (history past : List ℕ)
    → reverse (x ∷ history) ≡ take (suc n) past
    → length history ≡ n
    → reverse (history ++ hash ∷ []) ≡ hash ∷ take n past
push_full n hash x history past e full =
    reverse-append history (hash ∷ [])
    ∙ ap (λ t. hash ∷ t)
        (sym (take-append (reverse history) (x ∷ []))
          ∙ ap (λ k. take k (reverse history ++ x ∷ [])) (length-reverse history ∙ full)
          ∙ ap (take n) (sym (reverse-cons x history) ∙ e)
          ∙ take-take n past)

push_short :
    (n hash : ℕ) (history past : List ℕ)
    → reverse history ≡ take (suc n) past
    → length history ≤ n
    → reverse (history ++ hash ∷ []) ≡ hash ∷ take n past
push_short n hash history past e short =
    reverse-append history (hash ∷ [])
    ∙ ap (λ t. hash ∷ t)
        (e ∙ take_short n past (omega (arith, ap length e, length-reverse history)))

reverse-push :
    (n hash : ℕ) (history past : List ℕ)
    → reverse history ≡ take (suc n) past
    → reverse (push (suc n) hash history) ≡ hash ∷ take n past
unfolding push
reverse-push n hash [] past e = ground (arith, push_short n hash [] past e)
reverse-push n hash (x ∷ history) past e = ground (
  arith,
  push_short n hash (x ∷ history) past e,
  push_full n hash x history past e,
  length-append (x ∷ history) (hash ∷ []),
  length-take (suc n) past,
  ap length e,
  length-reverse (x ∷ history),
)

push_window :
    (w hash : ℕ) (history past : List ℕ)
    → 0 < w
    → reverse history ≡ take w past
    → reverse (push w hash history) ≡ take w (hash ∷ past)
push_window zero hash history past pos e = elim pos [ ]
push_window (suc n) hash history past pos e = reverse-push n hash history past e

-- What an action should be answered, by the length of the current run of equal actions.
abbrev pub expected : LoopDetector → ℕ → LoopState
expected d run =
    if leb d.threshold (min d.window run)
    then if d.advisory_injected then loop_detected else advisory
    else ok

-- A detector that tracks the past judges an action by the number of times that it now stands in a
-- row, the window at most; it tracks the longer past afterwards, keeps its settings, and remembers
-- an advisory: it is marked afterwards if it was before, or if the run reaches the threshold.
pub record_hash-expected :
    (hash : ℕ) (d : LoopDetector) (past : List ℕ)
    → Tracks d past
    → ((record_hash hash d).0 ≡ expected d (streak hash (hash ∷ past)))
      × Tracks (record_hash hash d).1 (hash ∷ past)
      × ((record_hash hash d).1.window ≡ d.window)
      × ((record_hash hash d).1.threshold ≡ d.threshold)
      × ((record_hash hash d).1.advisory_injected
          ≡ (d.advisory_injected || leb d.threshold (min d.window (streak hash (hash ∷ past)))))
unfolding record_hash
record_hash-expected hash d past (e, pos) = ground (
  arith,
  push_window d.window hash d.history past pos e,
  ap (streak hash) (push_window d.window hash d.history past pos e),
  streak-take d.window hash (hash ∷ past),
)

-- A run counts at most the window: with a threshold above the window no action is ever reported.
pub record_hash_quiet :
    (hash : ℕ) (d : LoopDetector) (past : List ℕ)
    → Tracks d past
    → d.window < d.threshold
    → (record_hash hash d).0 ≡ ok
record_hash_quiet hash d past t h = ground (arith, record_hash-expected hash d past t)

-- The answers before the advisory, and those after it.
abbrev pub After : List LoopState → Type 0
After [] = Unit {0}
After (ok ∷ xs) = After xs
After (advisory ∷ xs) = ⊥
After (loop_detected ∷ xs) = After xs

abbrev pub Before : List LoopState → Type 0
Before [] = Unit {0}
Before (ok ∷ xs) = Before xs
Before (advisory ∷ xs) = After xs
Before (loop_detected ∷ xs) = ⊥

-- An action after the advisory.
record_hash-After :
    (x : ℕ) (d : LoopDetector) (rest : List LoopState)
    → d.advisory_injected ≡ true
    → After rest
    → After ((record_hash x d).0 ∷ rest)
unfolding record_hash
record_hash-After x d rest h r =
    elim (Bool-cases (leb d.threshold (streak x (reverse (push d.window x d.history))))) [
      | inl e ↦ rw (e, h) r
      | inr e ↦ rw e r
    ]

record_hash-keeps :
    (x : ℕ) (d : LoopDetector)
    → d.advisory_injected ≡ true
    → (record_hash x d).1.advisory_injected ≡ true
unfolding record_hash
record_hash-keeps x d h = ground arith

answers-After : (d : LoopDetector) (hs : List ℕ) → d.advisory_injected ≡ true → After (answers d hs)
unfolding answers
answers-After d [] h = tt
answers-After d (x ∷ hs) h =
    record_hash-After x d _ h (answers-After (record_hash x d).1 hs (record_hash-keeps x d h))

answers-Before :
    (d : LoopDetector) (hs : List ℕ) → d.advisory_injected ≡ false → Before (answers d hs)
unfolding answers record_hash
answers-Before d [] h = tt
answers-Before d (x ∷ hs) h =
    elim (Bool-cases (leb d.threshold (streak x (reverse (push d.window x d.history))))) [
      | inl e ↦ rw (e, h) (answers-After _ hs refl)
      | inr e ↦ rw e (answers-Before (record d { history = push d.window x d.history }) hs h)
    ]

-- Over any actions a new detector gives the advisory at most once, and stops a session only after it.
pub answers-new : (window threshold : ℕ) (hs : List ℕ) → Before (answers (new window threshold) hs)
unfolding new
answers-new window threshold hs = answers-Before _ hs refl
