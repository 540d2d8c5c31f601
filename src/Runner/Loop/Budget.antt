-- ===== src/Runner/Loop/Budget.antt =====
-- How one turn of `run_session` in src/runner/mod.rs ends, and how the loop does.
use anser.Prelude.{
  ℕ, suc, ◌+◌, ◌≤◌, ◌≡◌, refl, ap, sym, ◌∙◌, String, Bool, true, false, ◌&&◌, Option, none, some,
  [], ◌∷◌, ◌++◌, ◌⊎◌, inl, inr, arith, Bool-cases,
}
use anser.Prelude.Text.{Text, trim}
use anser.Engine.{Completion, EngineError}
use anser.Runner.Session.{
  Status, completed, completed_budget_exhausted, reasoning_budget_exhausted, failed, RunnerError,
  dispatch, salvage, Runner, Session, is_empty, is_reasoning_ceiling, msg, assistant_msg,
}
use anser.Runner.Steps.{push_message, append, chat, run_calls}
use anser.Runner.Loop.{
  Next, again, ended, fault, land, retry_logged, retry_reply, retry, retry_prompt, conclude,
  after_calls, turn_logged, turn_reply, turn,
}
use anser.Runner.Loop.Metering.{
  dispatches, dispatches-append, IsMetered, Keeps, append-Keeps, chat-Keeps, run_calls-Keeps,
  salvage_ceiling-Keeps,
}

abbrev pub at_ceiling : Status → Bool
at_ceiling completed = false
at_ceiling completed_budget_exhausted = false
at_ceiling reasoning_budget_exhausted = true
at_ceiling failed = false

-- The end of a turn whose completion has below tool calls.
abbrev pub Concluded : {W : Type 0} → (W → ℕ) → Completion → Session W → Next × Session W → Type 0
Concluded m c s (again, s') = ⊥
Concluded m c s (ended text status, s') =
    Keeps m 2 s s' × (at_ceiling status ≡ is_reasoning_ceiling c)
Concluded m c s (fault e, s') = Keeps m 2 s s'

-- The end of a turn: one dispatch is recorded, under the turn's number.
abbrev pub Dispatched : {W : Type 0} → Session W → Session W → Completion → Type 0
Dispatched s s' c =
    (s'.turns ≡ suc s.turns)
    × (dispatches s'.ledger
        ≡ dispatches s.ledger ++ dispatch (suc s.turns) c.finish_reason c.content c.tool_calls ∷ [])

-- The dispatch line is written, or its fault is given.
abbrev pub Logged :
    {W : Type 0} → (W → ℕ) → Session W → Completion → Option String × Session W → Type 0
Logged m s c (none, s') = Dispatched s s' c × (m s'.world ≤ m s.world + 1)
Logged m s c (some e, s') = m s'.world ≤ m s.world + 1

abbrev pub Turned : {W : Type 0} → (W → ℕ) → Session W → Next × Session W → Type 0
Turned m s (again, s') =
    (c : Completion) × Dispatched s s' c
    × (is_empty c.tool_calls ≡ false)
    × (m s'.world ≤ m s.world + 1)
Turned m s (ended text status, s') =
    (c : Completion) × Dispatched s s' c
    × (at_ceiling status ≡ is_reasoning_ceiling c)
    × (m s'.world ≤ m s.world + 3)
Turned m s (fault e, s') = m s'.world ≤ m s.world + 3

module _ {W : Type 0} (r : Runner W) (m : W → ℕ) (metered : IsMetered r m) where
  Keeps-retry_logged :
      (c : Completion) (content : Text) (s : Session W) (p : Option String × Session W)
      → is_reasoning_ceiling c ≡ false
      → Keeps m 2 s p.1
      → Concluded m c s (retry_logged content p)
  unfolding retry_logged
  Keeps-retry_logged c content s (some e, s') below h = h
  Keeps-retry_logged c content s (none, s') below h = elim (Bool-cases (is_empty (trim content))) [
    | inl e ↦ rw e (h, sym below)
    | inr e ↦ rw e (h, sym below)
  ]

  Keeps-retry_reply :
      (c : Completion) (s : Session W) (p : (EngineError ⊎ Completion) × Session W)
      → is_reasoning_ceiling c ≡ false
      → Keeps m 1 s p.1
      → Concluded m c s (retry_reply r p)
  unfolding retry_reply
  Keeps-retry_reply c s (inl e, s') below (t, d, k) = (t, d, omega arith)
  Keeps-retry_reply c s (inr next, s') below (t, d, k) =
      let line = salvage s'.turns none next.content in
      let (t', d', k') = append-Keeps r m metered line s' refl in
      Keeps-retry_logged c next.content s (append r line s') below (t' ∙ t, d' ∙ d, omega arith)

  pub conclude-Concluded : (c : Completion) (s : Session W) → Concluded m c s (conclude r c s)
  unfolding conclude retry push_message
  conclude-Concluded c s = elim (Bool-cases (is_reasoning_ceiling c)) [
    | inl e ↦ rw e (salvage_ceiling-Keeps r m metered s, sym e)
    | inr below ↦ elim (Bool-cases (is_empty (trim c.content) && s.tool_activity)) [
      | inl e ↦
          let s1 = push_message (msg "user" retry_prompt) s in
          rw (below, e)
            (Keeps-retry_reply c s (chat r [] true s1) below (chat-Keeps r m metered [] true s1))
      | inr e ↦ rw (below, e) ((refl, refl, omega arith), sym below)
    ]
  ]

  after_calls-Turned :
      (c : Completion) (s s1 : Session W) (p : Option RunnerError × Session W)
      → Dispatched s s1 c
      → is_empty c.tool_calls ≡ false
      → m s1.world ≤ m s.world + 1
      → Keeps m 0 s1 p.1
      → Turned m s (after_calls p)
  unfolding after_calls
  after_calls-Turned c s s1 (none, s') (t, d) calls cost (t', d', k') =
      (c, (t' ∙ t, d' ∙ d), calls, omega arith)
  after_calls-Turned c s s1 (some e, s') (t, d) calls cost (t', d', k') = omega arith

  Concluded-Turned :
      (c : Completion) (s s1 : Session W) (p : Next × Session W)
      → Dispatched s s1 c
      → m s1.world ≤ m s.world + 1
      → Concluded m c s1 p
      → Turned m s p
  Concluded-Turned c s s1 (again, s') (t, d) cost h = elim h [ ]
  Concluded-Turned c s s1 (ended text status, s') (t, d) cost ((t', d', k'), honest) =
      (c, (t' ∙ t, d' ∙ d), honest, omega arith)
  Concluded-Turned c s s1 (fault e, s') (t, d) cost (t', d', k') = omega arith

  pub append-Logged :
      (c : Completion) (s s1 : Session W)
      → s1.turns ≡ suc s.turns
      → dispatches s1.ledger ≡ dispatches s.ledger
      → m s1.world ≤ m s.world + 1
      → Logged m s c (append r (dispatch s1.turns c.finish_reason c.content c.tool_calls) s1)
  unfolding append
  append-Logged c s s1 t d cost =
      let line = dispatch s1.turns c.finish_reason c.content c.tool_calls in
      ground (
        arith,
        metered.write_free line s1.world,
        dispatches-append s1.ledger (line ∷ []),
        t,
        ap (λ es. es ++ line ∷ []) d,
      )

  Logged-Turned :
      (c : Completion) (s : Session W) (p : Option String × Session W)
      → Logged m s c p
      → Turned m s (turn_logged r c p)
  unfolding turn_logged push_message
  Logged-Turned c s (some e, s1) cost = omega arith
  Logged-Turned c s (none, s1) (d, cost) = elim (Bool-cases (is_empty c.tool_calls)) [
    | inl e ↦
        let s2 = push_message (assistant_msg c) s1 in
        rw e (Concluded-Turned c s s2 (conclude r c s2) d cost (conclude-Concluded c s2))
    | inr e ↦
        let s2 = push_message (assistant_msg c) s1 in
        rw e (
          after_calls-Turned c s s2 (run_calls r c.tool_calls s2) d e cost
            (run_calls-Keeps r m metered c.tool_calls s2))
  ]

  turn_reply-Turned :
      (s : Session W) (p : (EngineError ⊎ Completion) × Session W)
      → p.1.turns ≡ suc s.turns
      → dispatches p.1.ledger ≡ dispatches s.ledger
      → m p.1.world ≤ m s.world + 1
      → Turned m s (turn_reply r p)
  unfolding turn_reply
  turn_reply-Turned s (inl e, s1) t d cost = omega arith
  turn_reply-Turned s (inr c, s1) t d cost = Logged-Turned c s _ (append-Logged c s s1 t d cost)

  land-Keeps : (budget : ℕ) (s : Session W) → Keeps m 0 s (land budget s)
  unfolding land push_message
  land-Keeps budget s = ground arith

  pub turn-Turned : (budget : ℕ) (s : Session W) → Turned m s (turn r budget s)
  unfolding turn
  turn-Turned budget s =
      let s1 = record (land budget s) { turns = suc (land budget s).turns } in
      let (t, d, k) = land-Keeps budget s in
      let (t', d', k') = chat-Keeps r m metered r.tools true s1 in
      turn_reply-Turned s (chat r r.tools true s1) (t' ∙ ap suc t) (d' ∙ d) (omega arith)
