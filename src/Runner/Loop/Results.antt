-- ===== src/Runner/Loop/Results.antt =====
-- The results of `run_session` in src/runner/mod.rs.
use anser.Prelude.{
  ℕ, suc, ◌+◌, ◌≤◌, ◌<◌, ◌≡◌, refl, ap, sym, ◌∙◌, String, true, Option, none, some, [], ◌∷◌, ◌++◌,
  ◌⊎◌, inl, inr, arith, Bool-cases, leb, nat_key,
}
use anser.Prelude.Text.{Text}
use anser.Engine.{Completion, EngineError}
use anser.Runner.Session.{
  Status, completed, completed_budget_exhausted, reasoning_budget_exhausted, failed, SessionResult,
  RunnerError, dispatch, final, Runner, Session, msg,
}
use anser.Runner.Steps.{push_message, append, chat}
use anser.Runner.Loop.{
  Next, again, ended, fault, turns_loop, final_logged, record_final, exhausted_prompt,
  exhausted_logged, exhausted_reply, reclassified, finish, effective_budget, start, run_session,
}
use anser.Runner.Loop.Metering.{
  dispatches, dispatches-append, IsMetered, Keeps, append-Keeps, chat-Keeps,
}
use anser.Runner.Loop.Budget.{at_ceiling}
use anser.Runner.Loop.Ledger.{
  dispatch_turns, any_ceiling, upto, dispatch_turns-add, any_ceiling-add, any_ceiling-dispatches,
  dispatch_turns-dispatches,
}
use anser.Runner.Loop.Outcome.{OnCourse, Looped, turns_loop-Looped}

-- What a result promises of the session that it comes from.
abbrev pub Promised : {W : Type 0} → (budget : ℕ) → SessionResult → Session W → Type 0
Promised budget res s =
    (res.budget ≡ budget)
    × (res.turns ≤ budget)
    × (res.status ≡ completed → res.turns < budget)
    × (any_ceiling res.turns s.ledger ≡ at_ceiling res.status)
    × ((dispatch_turns s.ledger ≡ upto res.turns)
        ⊎ ((dispatch_turns s.ledger ≡ upto (suc res.turns))
            × (res.turns ≡ budget)
            × (res.status ≡ completed_budget_exhausted)))

abbrev pub Finished :
    {W : Type 0} → (W → ℕ) → (budget cost : ℕ) → (RunnerError ⊎ SessionResult) × Session W → Type 0
Finished m budget cost (inl e, s) = m s.world ≤ cost + budget + 2
Finished m budget cost (inr res, s) = Promised budget res s × (m s.world ≤ cost + budget + 2)

-- The dispatch line that follows an exhausted budget has the number of the next turn.
abbrev Closed : {W : Type 0} → (W → ℕ) → Session W → Completion → Option String × Session W → Type 0
Closed m s c (some e, s') = m s'.world ≤ m s.world
Closed m s c (none, s') =
    (s'.turns ≡ s.turns)
    × (dispatches s'.ledger
        ≡ dispatches s.ledger ++ dispatch (suc s.turns) c.finish_reason c.content [] ∷ [])
    × (m s'.world ≤ m s.world)

Promised-ledger :
    {W : Type 0} (budget : ℕ) (res : SessionResult) (s s' : Session W)
    → dispatches s'.ledger ≡ dispatches s.ledger
    → Promised budget res s
    → Promised budget res s'
Promised-ledger budget res s s' d (b, le, plain, honest, lines) =
    let turns =
      sym (dispatch_turns-dispatches s'.ledger)
      ∙ ap dispatch_turns d
      ∙ dispatch_turns-dispatches s.ledger in
    let ceiling =
      sym (any_ceiling-dispatches res.turns s'.ledger)
      ∙ ap (any_ceiling res.turns) d
      ∙ any_ceiling-dispatches res.turns s.ledger in
    (
      b,
      le,
      plain,
      ceiling ∙ honest,
      elim lines [
        | inl t ↦ inl (turns ∙ t)
        | inr (t, full, status) ↦ inr (turns ∙ t, full, status)
      ],
    )

module _ {W : Type 0} (r : Runner W) (m : W → ℕ) (metered : IsMetered r m) where
  final_logged-Finished :
      (budget cost : ℕ) (res : SessionResult) (s : Session W) (p : Option String × Session W)
      → Keeps m 0 s p.1
      → Promised budget res s
      → m s.world ≤ cost + budget + 2
      → Finished m budget cost (final_logged res p)
  unfolding final_logged
  final_logged-Finished budget cost res s (some e, s') (t, d, k) h le = omega arith
  final_logged-Finished budget cost res s (none, s') (t, d, k) h le =
      (Promised-ledger budget res s s' d h, omega arith)

  record_final-Finished :
      (budget cost : ℕ) (text : Text) (status : Status) (s : Session W)
      → Promised budget
          (record { final_text = text; turns = s.turns; budget = budget; status = status })
          s
      → m s.world ≤ cost + budget + 2
      → Finished m budget cost (record_final r budget text status s)
  unfolding record_final
  record_final-Finished budget cost text status s h le =
      let line = final s.turns status text in
      final_logged-Finished budget cost _ s (append r line s) (append-Keeps r m metered line s refl)
        h le

  ended-Finished :
      (budget cost : ℕ) (text : Text) (status : Status) (s : Session W)
      → Looped m budget 0 cost (ended text status, s)
      → Finished m budget cost (finish r budget (ended text status, s))
  unfolding finish reclassified
  ended-Finished budget cost text completed s (turns, honest, lower, upper, k) =
      elim (Bool-cases (leb budget s.turns)) [
        | inl e ↦ rw e (
            record_final-Finished budget cost text completed_budget_exhausted s
              (refl, upper, λ q. absurd (ground (arith, q)), honest, inl turns) (omega arith))
        | inr e ↦ rw e (
            record_final-Finished budget cost text completed s
              (refl, upper, λ q. ground (arith, e), honest, inl turns) (omega arith))
      ]
  ended-Finished budget cost text completed_budget_exhausted s (turns, honest, lower, upper, k) =
      record_final-Finished budget cost text completed_budget_exhausted s
        (refl, upper, λ q. absurd (ground (arith, q)), honest, inl turns) (omega arith)
  ended-Finished budget cost text reasoning_budget_exhausted s (turns, honest, lower, upper, k) =
      record_final-Finished budget cost text reasoning_budget_exhausted s
        (refl, upper, λ q. absurd (ground (arith, q)), honest, inl turns) (omega arith)
  ended-Finished budget cost text failed s (turns, honest, lower, upper, k) =
      record_final-Finished budget cost text failed s
        (refl, upper, λ q. absurd (ground (arith, q)), honest, inl turns) (omega arith)

  append-Closed :
      (c : Completion) (s : Session W)
      → Closed m s c (append r (dispatch (suc s.turns) c.finish_reason c.content []) s)
  unfolding append
  append-Closed c s =
      let line = dispatch (suc s.turns) c.finish_reason c.content [] in
      ground (arith, metered.write_free line s.world, dispatches-append s.ledger (line ∷ []))

  exhausted_logged-Finished :
      (budget cost : ℕ) (c : Completion) (s : Session W) (p : Option String × Session W)
      → OnCourse s
      → s.turns ≡ budget
      → m s.world ≤ cost + budget + 1
      → Closed m s c p
      → Finished m budget cost (exhausted_logged r budget c.content p)
  unfolding exhausted_logged
  exhausted_logged-Finished budget cost c s (some e, s') (turns, quiet) full k cost' = omega arith
  exhausted_logged-Finished budget cost c s (none, s') (turns, quiet) full k (t, d, k') =
      let bare = record c { tool_calls = [] } in
      record_final-Finished budget cost c.content completed_budget_exhausted s'
        (
          refl,
          omega arith,
          λ q. absurd (ground (arith, q)),
          ground (
            arith,
            any_ceiling-add s'.turns s.ledger s'.ledger (suc s.turns) bare d,
            quiet s'.turns,
          ),
          inr (
            dispatch_turns-add s.ledger s'.ledger (suc s.turns) bare d
                ∙ ap (λ u. u ++ suc s.turns ∷ []) turns
                ∙ ap (λ n. upto (suc n)) (sym t),
            t ∙ full,
            refl,
          ),
        )
        (omega arith)

  exhausted_reply-Finished :
      (budget cost : ℕ) (p : (EngineError ⊎ Completion) × Session W)
      → OnCourse p.1
      → p.1.turns ≡ budget
      → m p.1.world ≤ cost + budget + 1
      → Finished m budget cost (exhausted_reply r budget p)
  unfolding exhausted_reply
  exhausted_reply-Finished budget cost (inl e, s) on full k = omega arith
  exhausted_reply-Finished budget cost (inr c, s) on full k =
      exhausted_logged-Finished budget cost c s _ on full k (append-Closed c s)

  again-Finished :
      (budget cost : ℕ) (s : Session W)
      → Looped m budget 0 cost (again, s)
      → Finished m budget cost (finish r budget (again, s))
  unfolding finish push_message chat
  again-Finished budget cost s (on, full, k) =
      let s1 = push_message (msg "user" exhausted_prompt) s in
      let (t, d, k') = chat-Keeps r m metered [] true s1 in
      exhausted_reply-Finished budget cost (chat r [] true s1) on full (omega arith)

  fault-Finished :
      (budget cost : ℕ) (e : RunnerError) (s : Session W)
      → Looped m budget 0 cost (fault e, s)
      → Finished m budget cost (finish r budget (fault e, s))
  unfolding finish
  fault-Finished budget cost e s h = omega arith

  finish-Finished :
      (budget cost : ℕ) (p : Next × Session W)
      → Looped m budget 0 cost p
      → Finished m budget cost (finish r budget p)
  finish-Finished budget cost (again, s) h = again-Finished budget cost s h
  finish-Finished budget cost (ended text status, s) h = ended-Finished budget cost text status s h
  finish-Finished budget cost (fault e, s) h = fault-Finished budget cost e s h

  pub run_session-Finished :
      (system_prompt user_prompt : Text) (turns_budget : ℕ) (w : W)
      → Finished m
          (effective_budget turns_budget)
          (m w)
          (run_session r system_prompt user_prompt turns_budget [] w)
  unfolding run_session start
  run_session-Finished system_prompt user_prompt turns_budget w =
      let budget = effective_budget turns_budget in
      let s = start system_prompt user_prompt [] w in
      finish-Finished budget (m w) (turns_loop r budget budget s) (
        turns_loop-Looped r m metered budget budget s (refl, λ n. refl) (omega arith) (omega arith))
