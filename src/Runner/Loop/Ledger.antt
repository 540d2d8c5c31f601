-- ===== src/Runner/Loop/Ledger.antt =====
-- What the dispatch lines of a ledger of src/runner/mod.rs say: their turns, and a reasoning ceiling.
use anser.Prelude.{
  ℕ, zero, suc, ◌≡◌, refl, ap, sym, ◌∙◌, Bool, false, ◌&&◌, ◌||◌, List, [], ◌∷◌, ◌++◌, arith, leb,
  nat_key,
}
use anser.Engine.{Completion}
use anser.Runner.Session.{
  Event, dispatch, tool_result, salvage, salvage_failed, final, is_reasoning_ceiling,
}
use anser.Runner.Loop.{turn, finish}
use anser.Runner.Loop.Metering.{dispatches}

-- The turns that a ledger's dispatch lines name.
abbrev pub dispatch_turns : List Event → List ℕ
dispatch_turns [] = []
dispatch_turns (dispatch turn finish content calls ∷ es) = turn ∷ dispatch_turns es
dispatch_turns (tool_result turn id name error output ∷ es) = dispatch_turns es
dispatch_turns (salvage turn reason content ∷ es) = dispatch_turns es
dispatch_turns (salvage_failed turn reason error ∷ es) = dispatch_turns es
dispatch_turns (final turn status text ∷ es) = dispatch_turns es

-- Whether a completion of the first `n` turns stopped at its reasoning ceiling.
abbrev pub any_ceiling : ℕ → List Event → Bool
any_ceiling n [] = false
any_ceiling n (dispatch turn finish content calls ∷ es) =
    (leb turn n
      && is_reasoning_ceiling
          (record { content = content; tool_calls = calls; finish_reason = finish }))
    || any_ceiling n es
any_ceiling n (tool_result turn id name error output ∷ es) = any_ceiling n es
any_ceiling n (salvage turn reason content ∷ es) = any_ceiling n es
any_ceiling n (salvage_failed turn reason error ∷ es) = any_ceiling n es
any_ceiling n (final turn status text ∷ es) = any_ceiling n es

-- 1 to n.
abbrev pub upto : ℕ → List ℕ
upto zero = []
upto (suc n) = upto n ++ suc n ∷ []

pub dispatch_turns-dispatches :
    (es : List Event) → dispatch_turns (dispatches es) ≡ dispatch_turns es
dispatch_turns-dispatches [] = refl
dispatch_turns-dispatches (dispatch turn finish content calls ∷ es) =
    ap (λ t. turn ∷ t) (dispatch_turns-dispatches es)
dispatch_turns-dispatches (tool_result turn id name error output ∷ es) =
    dispatch_turns-dispatches es
dispatch_turns-dispatches (salvage turn reason content ∷ es) = dispatch_turns-dispatches es
dispatch_turns-dispatches (salvage_failed turn reason error ∷ es) = dispatch_turns-dispatches es
dispatch_turns-dispatches (final turn status text ∷ es) = dispatch_turns-dispatches es

pub any_ceiling-dispatches :
    (n : ℕ) (es : List Event) → any_ceiling n (dispatches es) ≡ any_ceiling n es
any_ceiling-dispatches n [] = refl
any_ceiling-dispatches n (dispatch turn finish content calls ∷ es) =
    ap
      (λ t.
        (leb turn n
          && is_reasoning_ceiling
              (record { content = content; tool_calls = calls; finish_reason = finish }))
        || t)
      (any_ceiling-dispatches n es)
any_ceiling-dispatches n (tool_result turn id name error output ∷ es) = any_ceiling-dispatches n es
any_ceiling-dispatches n (salvage turn reason content ∷ es) = any_ceiling-dispatches n es
any_ceiling-dispatches n (salvage_failed turn reason error ∷ es) = any_ceiling-dispatches n es
any_ceiling-dispatches n (final turn status text ∷ es) = any_ceiling-dispatches n es

-- Ledgers of dispatch lines only are enough for both.
pub dispatch_turns-add :
    (xs ys : List Event) (turn : ℕ) (c : Completion)
    → dispatches ys ≡ dispatches xs ++ dispatch turn c.finish_reason c.content c.tool_calls ∷ []
    → dispatch_turns ys ≡ dispatch_turns xs ++ turn ∷ []
dispatch_turns-add xs ys turn c e =
    sym (dispatch_turns-dispatches ys)
    ∙ ap dispatch_turns e
    ∙ dispatch_turns_snoc (dispatches xs) turn c
    ∙ ap (λ t. t ++ turn ∷ []) (dispatch_turns-dispatches xs)
  where
    dispatch_turns_snoc :
        (es : List Event) (turn : ℕ) (c : Completion)
        → dispatch_turns (es ++ dispatch turn c.finish_reason c.content c.tool_calls ∷ [])
          ≡ dispatch_turns es ++ turn ∷ []
    dispatch_turns_snoc [] turn c = refl
    dispatch_turns_snoc (dispatch t finish content calls ∷ es) turn c =
        ap (λ u. t ∷ u) (dispatch_turns_snoc es turn c)
    dispatch_turns_snoc (tool_result t id name error output ∷ es) turn c =
        dispatch_turns_snoc es turn c
    dispatch_turns_snoc (salvage t reason content ∷ es) turn c = dispatch_turns_snoc es turn c
    dispatch_turns_snoc (salvage_failed t reason error ∷ es) turn c = dispatch_turns_snoc es turn c
    dispatch_turns_snoc (final t status text ∷ es) turn c = dispatch_turns_snoc es turn c

any_ceiling_snoc :
    (n : ℕ) (es : List Event) (turn : ℕ) (c : Completion)
    → any_ceiling n (es ++ dispatch turn c.finish_reason c.content c.tool_calls ∷ [])
      ≡ (any_ceiling n es || (leb turn n && is_reasoning_ceiling c))
any_ceiling_snoc n [] turn c = ground arith
any_ceiling_snoc n (dispatch t finish content calls ∷ es) turn c =
    ground (arith, any_ceiling_snoc n es turn c)
any_ceiling_snoc n (tool_result t id name error output ∷ es) turn c = any_ceiling_snoc n es turn c
any_ceiling_snoc n (salvage t reason content ∷ es) turn c = any_ceiling_snoc n es turn c
any_ceiling_snoc n (salvage_failed t reason error ∷ es) turn c = any_ceiling_snoc n es turn c
any_ceiling_snoc n (final t status text ∷ es) turn c = any_ceiling_snoc n es turn c

pub any_ceiling-add :
    (n : ℕ) (xs ys : List Event) (turn : ℕ) (c : Completion)
    → dispatches ys ≡ dispatches xs ++ dispatch turn c.finish_reason c.content c.tool_calls ∷ []
    → any_ceiling n ys ≡ (any_ceiling n xs || (leb turn n && is_reasoning_ceiling c))
any_ceiling-add n xs ys turn c e =
    sym (any_ceiling-dispatches n ys)
    ∙ ap (any_ceiling n) e
    ∙ any_ceiling_snoc n (dispatches xs) turn c
    ∙ ap (λ t. t || (leb turn n && is_reasoning_ceiling c)) (any_ceiling-dispatches n xs)
