-- ===== src/Runner/Detector.antt =====
-- src/runner/loop_detector.rs: the same action, several times in a row.
pub mod Laws
use anser.Prelude.{
  ℕ, suc, ◌+◌, String, Bool, true, false, List, [], ◌∷◌, ◌++◌, reverse, if◌then◌else◌, ◌==◌,
  nat_key, max, leb, ltb, length,
}

pub data LoopState : Type 0 where
  ok advisory loop_detected : LoopState

-- The hashes of the last actions, oldest first.
pub record LoopDetector : Type 0 where
  pub window : ℕ
  pub threshold : ℕ
  pub history : List ℕ
  pub advisory_injected : Bool

unfoldable pub new : (window threshold : ℕ) → LoopDetector
new window threshold = record {
  window = max window 1;
  threshold = max threshold 1;
  history = [];
  advisory_injected = false;
}

abbrev pub pop_front : List ℕ → List ℕ
pop_front [] = []
pop_front (h ∷ hs) = hs

unfoldable pub push : ℕ → ℕ → List ℕ → List ℕ
push window hash history =
    let pushed = history ++ hash ∷ [] in
    if ltb window (length pushed) then pop_front pushed else pushed

-- The loop over the history from its newest end: it stops at the first other hash.
unfoldable pub streak : ℕ → List ℕ → ℕ
streak last [] = 0
streak last (h ∷ hs) = let rest = suc (streak last hs) in if h == last then rest else 0

abbrev pub trip : LoopDetector → LoopState × LoopDetector
trip d =
    if d.advisory_injected
    then (loop_detected, d)
    else (advisory, record d { advisory_injected = true })

unfoldable pub record_hash : ℕ → LoopDetector → LoopState × LoopDetector
unfolding push
record_hash hash d0 =
    let d = record d0 { history = push d0.window hash d0.history } in
    if leb d.threshold (streak hash (reverse d.history)) then trip d else (ok, d)

-- The standard library's hash of the tool's name and arguments is a parameter.
unfoldable pub record_action :
    (String → String → ℕ) → (name args : String) → LoopDetector → LoopState × LoopDetector
record_action hash_action name args d = record_hash (hash_action name args) d

-- The answers to a sequence of actions.
unfoldable pub answers : LoopDetector → List ℕ → List LoopState
answers d [] = []
answers d (h ∷ hs) = let (state, d') = record_hash h d in state ∷ answers d' hs
