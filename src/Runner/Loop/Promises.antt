-- ===== src/Runner/Loop/Promises.antt =====
-- What a caller of `run_session` in src/runner/mod.rs may rely on.
use anser.Prelude.{
  ℕ, zero, suc, ◌+◌, ◌≤◌, ◌<◌, ◌≡◌, ◌↔◌, refl, ap, sym, ◌∙◌, true, [], if◌then◌else◌, ◌⊎◌, inl, inr,
  arith, ltb, ◌==◌, nat_key,
}
use mathlib.Core.Path.{subst}
use anser.Prelude.Text.{Text}
use anser.Runner.Session.{
  Status, completed, completed_budget_exhausted, reasoning_budget_exhausted, failed, SessionResult,
  RunnerError, Runner, Session,
}
use anser.Runner.Loop.{
  Next, again, ended, fault, turn, go_on, turns_loop, effective_budget, run_session,
}
use anser.Runner.Loop.Metering.{IsMetered}
use anser.Runner.Loop.Budget.{at_ceiling, Turned, turn-Turned}
use anser.Runner.Loop.Ledger.{dispatch_turns, any_ceiling, upto}
use anser.Runner.Loop.Results.{Promised, Finished, run_session-Finished}

at_ceiling_iff :
    (status : Status) → (status ≡ reasoning_budget_exhausted) ↔ (at_ceiling status ≡ true)
at_ceiling_iff completed = (λ q. absurd (ground (arith, q)), λ q. absurd (ground (arith, q)))
at_ceiling_iff completed_budget_exhausted =
    (λ q. absurd (ground (arith, q)), λ q. absurd (ground (arith, q)))
at_ceiling_iff reasoning_budget_exhausted = (λ q. refl, λ q. refl)
at_ceiling_iff failed = (λ q. absurd (ground (arith, q)), λ q. absurd (ground (arith, q)))

module _ {W : Type 0} (r : Runner W) where
  pub unmetered : IsMetered r (λ w. 0)
  unmetered = record {
    chat_cost = λ messages tools stream w. omega arith;
    execute_free = λ name args w. omega arith;
    write_free = λ e w. omega arith;
    write_file_free = λ p t w. omega arith;
  }

  run_session-Promised :
      (system_prompt user_prompt : Text) (turns_budget : ℕ) (w : W) (res : SessionResult)
      (s : Session W)
      → run_session r system_prompt user_prompt turns_budget [] w ≡ (inr res, s)
      → Promised (effective_budget turns_budget) res s
  run_session-Promised system_prompt user_prompt turns_budget w res s e =
      (subst (Finished (λ _. 0) (effective_budget turns_budget) 0) e
        (run_session-Finished r (λ _. 0) unmetered system_prompt user_prompt turns_budget w)).0

  -- A session that returns a result has used at most the budget, which is 80 turns if the caller gave
  -- 0, and a session that is called completed has used less.
  pub run_session_budget :
      (system_prompt user_prompt : Text) (turns_budget : ℕ) (w : W) (res : SessionResult)
      (s : Session W)
      → run_session r system_prompt user_prompt turns_budget [] w ≡ (inr res, s)
      → (res.budget ≡ (if turns_budget == 0 then 80 else turns_budget))
        × (res.turns ≤ res.budget)
        × (res.status ≡ completed → res.turns < res.budget)
  unfolding effective_budget
  run_session_budget system_prompt user_prompt turns_budget w res s e =
      let (b, le, plain, honest, lines) =
        run_session-Promised system_prompt user_prompt turns_budget w res s e in
      (b, omega (arith, b, le), λ q. omega (arith, b, plain q))

  -- A result has the status of an exhausted reasoning budget exactly when one of the completions of
  -- its turns, by the lines that the session wrote to its ledger, stopped at the ceiling.
  pub run_session_ceiling :
      (system_prompt user_prompt : Text) (turns_budget : ℕ) (w : W) (res : SessionResult)
      (s : Session W)
      → run_session r system_prompt user_prompt turns_budget [] w ≡ (inr res, s)
      → (res.status ≡ reasoning_budget_exhausted) ↔ (any_ceiling res.turns s.ledger ≡ true)
  run_session_ceiling system_prompt user_prompt turns_budget w res s e =
      let (b, le, plain, honest, lines) =
        run_session-Promised system_prompt user_prompt turns_budget w res s e in
      let (to, from) = at_ceiling_iff res.status in (λ q. honest ∙ to q, λ q. from (sym honest ∙ q))

  -- The dispatch lines that a session with a result wrote have the numbers of its turns in order, and
  -- one number more where the budget ran out without a final answer.
  pub run_session_dispatches :
      (system_prompt user_prompt : Text) (turns_budget : ℕ) (w : W) (res : SessionResult)
      (s : Session W)
      → run_session r system_prompt user_prompt turns_budget [] w ≡ (inr res, s)
      → (dispatch_turns s.ledger ≡ upto res.turns)
        ⊎ ((dispatch_turns s.ledger ≡ upto (suc res.turns))
            × (res.turns ≡ effective_budget turns_budget)
            × (res.status ≡ completed_budget_exhausted))
  run_session_dispatches system_prompt user_prompt turns_budget w res s e =
      let (b, le, plain, honest, lines) =
        run_session-Promised system_prompt user_prompt turns_budget w res s e in
      lines

  -- However a session ends, with a result or with an error, it has called the engine at most twice
  -- more often than its budget has turns, by any measure that counts the calls.
  pub run_session_calls :
      (m : W → ℕ) (system_prompt user_prompt : Text) (turns_budget : ℕ) (w : W)
      → IsMetered r m
      → m (run_session r system_prompt user_prompt turns_budget [] w).1.world
        ≤ m w + effective_budget turns_budget + 2
  run_session_calls m system_prompt user_prompt turns_budget w metered =
      cost_of _ (run_session-Finished r m metered system_prompt user_prompt turns_budget w)
    where
      cost_of :
          (p : (RunnerError ⊎ SessionResult) × Session W)
          → Finished m (effective_budget turns_budget) (m w) p
          → m p.1.world ≤ m w + effective_budget turns_budget + 2
      cost_of (inl e, s) h = h
      cost_of (inr res, s) (h, le) = le

  go_on_same :
      (rest rest' this : Next × Session W)
      → (this.0 ≡ again → rest ≡ rest')
      → go_on rest this ≡ go_on rest' this
  unfolding go_on
  go_on_same rest rest' (again, s) h = h refl
  go_on_same rest rest' (ended text status, s) h = refl
  go_on_same rest rest' (fault e, s) h = refl

  turn-turns :
      (budget : ℕ) (s : Session W)
      → (turn r budget s).0 ≡ again
      → (turn r budget s).1.turns ≡ suc s.turns
  turn-turns budget s e = of _ e (turn-Turned r (λ _. 0) unmetered budget s)
    where
      of : (p : Next × Session W) → p.0 ≡ again → Turned (λ _. 0) s p → p.1.turns ≡ suc s.turns
      of (again, s') e (c, (t, d), calls, cost) = t
      of (ended text status, s') e h = absurd (ground (arith, e))
      of (fault f, s') e h = absurd (ground (arith, e))

  -- Fuel for the turns that are left is enough: more fuel gives the same end of the loop.
  pub turns_loop_enough :
      (budget fuel more : ℕ) (s : Session W)
      → budget ≤ s.turns + fuel
      → fuel ≤ more
      → turns_loop r budget more s ≡ turns_loop r budget fuel s
  unfolding turns_loop
  turns_loop_enough budget zero zero s h le = refl
  turns_loop_enough budget zero (suc more) s h le = ground (arith, h)
  turns_loop_enough budget (suc fuel) zero s h le = absurd (omega arith)
  turns_loop_enough budget (suc fuel) (suc more) s h le =
      ap (λ p. if ltb s.turns budget then p else (again, s))
        (go_on_same _ _ (turn r budget s) (λ e.
          turns_loop_enough budget fuel more (turn r budget s).1
            (omega (arith, h, turn-turns budget s e)) (omega arith)))
