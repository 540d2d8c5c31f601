-- ===== src/Runner/Loop/Outcome.antt =====
-- What `run_session` of src/runner/mod.rs returns, against the dispatch lines of its ledger.
use anser.Prelude.{
  ℕ, zero, suc, ◌+◌, ◌≤◌, ◌<◌, ◌≡◌, ap, sym, ◌∙◌, false, [], ◌∷◌, ◌++◌, inl, inr, arith, Bool-cases,
  ltb, nat_key,
}
use mathlib.Core.Path.{subst}
use anser.Prelude.Text.{Text}
use anser.Runner.Session.{Status, Runner, Session, is_reasoning_ceiling}
use anser.Runner.Loop.{Next, again, ended, fault, turn, go_on, turns_loop}
use anser.Runner.Loop.Metering.{IsMetered}
use anser.Runner.Loop.Budget.{at_ceiling, Turned, turn-Turned}
use anser.Runner.Loop.Ledger.{
  dispatch_turns, any_ceiling, upto, dispatch_turns-add, any_ceiling-add,
}

-- Each turn so far has its dispatch line, in order, and none stopped at the ceiling.
abbrev pub OnCourse : {W : Type 0} → Session W → Type 0
OnCourse s = (dispatch_turns s.ledger ≡ upto s.turns) × ((n : ℕ) → any_ceiling n s.ledger ≡ false)

-- How the loop ends, from a session with `spent` turns and a world of measure `cost`.
abbrev pub Looped : {W : Type 0} → (W → ℕ) → (budget spent cost : ℕ) → Next × Session W → Type 0
Looped m budget spent cost (again, s') =
    OnCourse s' × (s'.turns ≡ budget) × (m s'.world + spent ≤ cost + budget)
Looped m budget spent cost (ended text status, s') =
    (dispatch_turns s'.ledger ≡ upto s'.turns)
    × (any_ceiling s'.turns s'.ledger ≡ at_ceiling status)
    × (spent < s'.turns)
    × (s'.turns ≤ budget)
    × (m s'.world + spent ≤ cost + budget + 2)
Looped m budget spent cost (fault e, s') = m s'.world + spent ≤ cost + budget + 2

module _ {W : Type 0} (r : Runner W) (m : W → ℕ) (metered : IsMetered r m) where
  Turned-again :
      (budget : ℕ) (s s' : Session W)
      → OnCourse s
      → s.turns < budget
      → Turned m s (again, s')
      → OnCourse s' × (s'.turns ≤ budget) × (s'.turns ≡ suc s.turns) × (m s'.world ≤ m s.world + 1)
  unfolding is_reasoning_ceiling
  Turned-again budget s s' (turns, quiet) more (c, (t, d), calls, cost) = (
    (
      dispatch_turns-add s.ledger s'.ledger (suc s.turns) c d
          ∙ ap (λ u. u ++ suc s.turns ∷ []) turns
          ∙ ap upto (sym t),
      λ n. ground (arith, any_ceiling-add n s.ledger s'.ledger (suc s.turns) c d, quiet n, calls),
    ),
    omega arith,
    t,
    cost,
  )

  Turned-ended :
      (budget : ℕ) (s s' : Session W) (text : Text) (status : Status)
      → OnCourse s
      → s.turns < budget
      → Turned m s (ended text status, s')
      → Looped m budget s.turns (m s.world) (ended text status, s')
  Turned-ended budget s s' text status (turns, quiet) more (c, (t, d), honest, cost) = (
    dispatch_turns-add s.ledger s'.ledger (suc s.turns) c d
        ∙ ap (λ u. u ++ suc s.turns ∷ []) turns
        ∙ ap upto (sym t),
    ground (
      arith,
      any_ceiling-add s'.turns s.ledger s'.ledger (suc s.turns) c d,
      quiet s'.turns,
      honest,
      t,
    ),
    omega arith,
    omega arith,
    omega arith,
  )

  Looped-more :
      (budget spent cost cost' : ℕ) (p : Next × Session W)
      → cost' ≤ cost + 1
      → Looped m budget (suc spent) cost' p
      → Looped m budget spent cost p
  Looped-more budget spent cost cost' (again, s') le (on, t, k) = (on, t, omega arith)
  Looped-more budget spent cost cost' (ended text status, s') le (turns, honest, lower, upper, k) =
      (turns, honest, omega arith, upper, omega arith)
  Looped-more budget spent cost cost' (fault e, s') le k = omega arith

  go_on-Looped :
      (budget : ℕ) (s : Session W) (this rest : Next × Session W)
      → OnCourse s
      → s.turns < budget
      → Turned m s this
      → (OnCourse this.1
          → this.1.turns ≤ budget
          → this.1.turns ≡ suc s.turns
          → Looped m budget this.1.turns (m this.1.world) rest)
      → Looped m budget s.turns (m s.world) (go_on rest this)
  unfolding go_on
  go_on-Looped budget s (again, s') rest on more turned next =
      let (on', upper, t, k) = Turned-again budget s s' on more turned in
      Looped-more budget s.turns (m s.world) (m s'.world) rest k
        (subst (λ n. Looped m budget n (m s'.world) rest) t (next on' upper t))
  go_on-Looped budget s (ended text status, s') rest on more turned next =
      Turned-ended budget s s' text status on more turned
  go_on-Looped budget s (fault e, s') rest on more turned next = omega arith

  -- Fuel for the turns that are left is enough: the loop stops only at the budget or before it.
  pub turns_loop-Looped :
      (budget fuel : ℕ) (s : Session W)
      → OnCourse s
      → s.turns ≤ budget
      → budget ≤ s.turns + fuel
      → Looped m budget s.turns (m s.world) (turns_loop r budget fuel s)
  unfolding turns_loop
  turns_loop-Looped budget zero s on le enough = (on, omega arith, omega arith)
  turns_loop-Looped budget (suc fuel) s on le enough = elim (Bool-cases (ltb s.turns budget)) [
    | inl e ↦
        let this = turn r budget s in
        rw e (
          go_on-Looped budget s this (turns_loop r budget fuel this.1) on (ground (arith, e))
            (turn-Turned r m metered budget s)
            (λ on' le' t. turns_loop-Looped budget fuel this.1 on' le' (omega arith)))
    | inr e ↦ rw e (on, ground (arith, e, le), ground (arith, e, le))
  ]
