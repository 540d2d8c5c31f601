-- ===== src/Prelude/Lines.antt =====
-- A loop that takes whole lines off a buffer, as the readers of streams write it, and the same
-- reading one character at a time.
pub mod Cuts
pub mod Whole
use Prim.Native.Nat.{ℕ, zero, suc, ◌≤◌}
use mathlib.Core.Path.{◌≡◌, refl, ap, sym, ◌∙◌}
use mathlib.Core.Bool.{Bool, true, false}
use mathlib.Core.Option.{Option, none, some}
use mathlib.Core.List.{List, [], ◌∷◌, ◌++◌, append_assoc, append-nil}
use native.Mathlib.Omega.{arith}
use anser.Prelude.Tests.{if◌then◌else◌, nat_eqb}
use anser.Prelude.Lists.{length, length-append}
use anser.Prelude.Text.{Text}

-- What follows a step of a loop: its next state, or the value of an early return.
pub data Flow (S R : Type 0) : Type 0 where
  go : S → Flow S R
  stop : R → Flow S R

abbrev pub and_then : {S T R : Type 0} → Flow S R → (S → Flow T R) → Flow T R
and_then (go s) f = f s
and_then (stop r) f = stop r

-- The text before the first newline and the text after it.
unfoldable pub split_line : Text → Option (Text × Text)
split_line [] = none
split_line (c ∷ cs) =
    let rest = split_line cs in
    if nat_eqb c 10
    then some ([], cs)
    else elim rest [ none ↦ none | some (line, after) ↦ some (c ∷ line, after) ]

module _ {S R : Type 0} (handle : Text → S → Flow S R) where
  -- `while let Some(pos)` on the buffer; what is left holds no newline.
  unfoldable pub drain : ℕ → Text → S → Flow (Text × S) R
  unfolding split_line
  drain zero buf s = go (buf, s)
  drain (suc fuel) buf s = elim (split_line buf) [
    | none ↦ go (buf, s)
    | some (line, after) ↦ and_then (handle line s) (λ t. drain fuel after t)
  ]

  -- A chunk joins the buffer before the whole lines leave it.
  unfoldable pub feed_line : Text → Text × S → Flow (Text × S) R
  unfolding drain
  feed_line chunk (buf, s) = drain (suc (length (buf ++ chunk))) (buf ++ chunk) s

  unfoldable pub feed_all : List Text → Text × S → Flow (Text × S) R
  unfolding feed_line
  feed_all [] at = go at
  feed_all (chunk ∷ chunks) at = and_then (feed_line chunk at) (λ next. feed_all chunks next)

  -- The same without a buffer: the current line grows until its newline comes.
  unfoldable pub scan : Text → Text → S → Flow (Text × S) R
  scan cur [] s = go (cur, s)
  scan cur (c ∷ cs) s =
      let rest = scan (cur ++ c ∷ []) cs s in
      let onward = and_then (handle cur s) (λ t. scan [] cs t) in
      if nat_eqb c 10 then onward else rest
