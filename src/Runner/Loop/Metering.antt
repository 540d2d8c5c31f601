-- ===== src/Runner/Loop/Metering.antt =====
-- What the parts of a turn of src/runner/mod.rs leave alone: the count of turns, the dispatches of
-- the ledger, and, up to the engine calls that they make, a measure of the world.
use anser.Prelude.{
  ℕ, suc, ◌+◌, ◌≤◌, ◌≡◌, refl, ap, ◌∙◌, String, Bool, true, false, Option, none, some, List, [],
  ◌∷◌, ◌++◌, string_key, ◌⊎◌, inl, inr, arith, Bool-cases,
}
use mathlib.Core.List.{append-nil}
use anser.Prelude.Text.{Text, trim}
use anser.Engine.{ToolCall, Message, ToolSchema, Completion, EngineError, display}
use anser.Runner.Detector.{LoopState, ok, advisory, loop_detected, LoopDetector, record_action}
use anser.Runner.Session.{
  Event, dispatch, tool_result, salvage, salvage_failed, final, Runner, Session, is_empty, msg,
  tool_msg, assistant_msg, salvage_report_path, salvage_report,
}
use anser.Runner.Steps.{
  push_message, append, chat, execute, is_error, judged, run_logged, run_call, run_calls,
  salvage_calls, follow_up, salvage_tools, write_report, written_path, report_salvage,
  salvage_reply, salvage_ceiling, salvage_prompt,
}

-- The dispatch lines of a ledger.
abbrev pub dispatches : List Event → List Event
dispatches [] = []
dispatches (dispatch turn finish content calls ∷ es) =
    dispatch turn finish content calls ∷ dispatches es
dispatches (tool_result turn id name error output ∷ es) = dispatches es
dispatches (salvage turn reason content ∷ es) = dispatches es
dispatches (salvage_failed turn reason error ∷ es) = dispatches es
dispatches (final turn status text ∷ es) = dispatches es

pub dispatches-append :
    (xs ys : List Event) → dispatches (xs ++ ys) ≡ dispatches xs ++ dispatches ys
dispatches-append [] ys = refl
dispatches-append (dispatch turn finish content calls ∷ es) ys =
    ap (λ t. dispatch turn finish content calls ∷ t) (dispatches-append es ys)
dispatches-append (tool_result turn id name error output ∷ es) ys = dispatches-append es ys
dispatches-append (salvage turn reason content ∷ es) ys = dispatches-append es ys
dispatches-append (salvage_failed turn reason error ∷ es) ys = dispatches-append es ys
dispatches-append (final turn status text ∷ es) ys = dispatches-append es ys

-- A measure that each engine call raises by one at most, and nothing else raises.
pub record IsMetered {W : Type 0} (r : Runner W) (m : W → ℕ) : Type 0 where
  pub chat_cost :
      (messages : List Message) (tools : List ToolSchema) (stream : Bool) (w : W)
      → m (r.chat messages tools stream w).1 ≤ suc (m w)
  pub execute_free : (name args : String) (w : W) → m (r.execute name args w).1 ≤ m w
  pub write_free : (e : Event) (w : W) → m (r.write e w).1 ≤ m w
  pub write_file_free : (p : String) (t : Text) (w : W) → m (r.write_file p t w).1 ≤ m w

-- From `s` to `s'` no turn passes, no dispatch is recorded, and the engine is called `k` times at most.
abbrev pub Keeps : {W : Type 0} → (W → ℕ) → ℕ → Session W → Session W → Type 0
Keeps m k s s' =
    (s'.turns ≡ s.turns)
    × (dispatches s'.ledger ≡ dispatches s.ledger)
    × (m s'.world ≤ m s.world + k)

dispatches_add :
    (es : List Event) (e : Event)
    → dispatches (e ∷ []) ≡ []
    → dispatches (es ++ e ∷ []) ≡ dispatches es
dispatches_add es e h =
    dispatches-append es (e ∷ []) ∙ ap (λ t. dispatches es ++ t) h ∙ append-nil (dispatches es)

module _ {W : Type 0} (r : Runner W) (m : W → ℕ) (metered : IsMetered r m) where
  pub Keeps-trans :
      (j k : ℕ) (s t u : Session W) → Keeps m j s t → Keeps m k t u → Keeps m (j + k) s u
  Keeps-trans j k s t u (t0, d0, m0) (t1, d1, m1) = (t1 ∙ t0, d1 ∙ d0, omega arith)

  pub append-Keeps :
      (e : Event) (s : Session W) → dispatches (e ∷ []) ≡ [] → Keeps m 0 s (append r e s).1
  unfolding append
  append-Keeps e s h = ground (arith, metered.write_free e s.world, dispatches_add s.ledger e h)

  pub chat-Keeps :
      (tools : List ToolSchema) (stream : Bool) (s : Session W)
      → Keeps m 1 s (chat r tools stream s).1
  unfolding chat
  chat-Keeps tools stream s =
      (refl, refl, omega (arith, metered.chat_cost s.messages tools stream s.world))

  execute-Keeps : (tc : ToolCall) (s : Session W) → Keeps m 0 s (execute r tc s).1
  unfolding execute
  execute-Keeps tc s =
      (refl, refl, omega (arith, metered.execute_free tc.name tc.arguments s.world))

  judged-Keeps :
      (tc : ToolCall) (d : LoopState × LoopDetector) (s : Session W) → Keeps m 0 s (judged tc d s).1
  unfolding judged push_message
  judged-Keeps tc (ok, d) s = (refl, refl, omega arith)
  judged-Keeps tc (advisory, d) s = (refl, refl, omega arith)
  judged-Keeps tc (loop_detected, d) s = (refl, refl, omega arith)

  Keeps-run_logged :
      (tc : ToolCall) (k : ℕ) (s : Session W) (p : Option String × Session W)
      → Keeps m k s p.1
      → Keeps m k s (run_logged r tc p).1
  unfolding run_logged
  Keeps-run_logged tc k s (some e, s') h = h
  Keeps-run_logged tc k s (none, s') h = ground (
    arith,
    judged-Keeps tc (record_action r.hash_action tc.name tc.arguments s'.loop_detector) s',
  )

  run_call-Keeps : (tc : ToolCall) (s : Session W) → Keeps m 0 s (run_call r tc s).1
  unfolding run_call push_message
  run_call-Keeps tc s =
      let (text, s1) = execute r tc s in
      let s2 = push_message (tool_msg tc text) (record s1 { tool_activity = true }) in
      let line = tool_result s2.turns tc.id tc.name (is_error text) none in
      Keeps-run_logged tc 0 s (append r line s2)
        (Keeps-trans 0 0 s s1 (append r line s2).1 (execute-Keeps tc s) (append-Keeps line s2 refl))

  pub run_calls-Keeps : (tcs : List ToolCall) (s : Session W) → Keeps m 0 s (run_calls r tcs s).1
  unfolding run_calls
  run_calls-Keeps [] s = (refl, refl, omega arith)
  run_calls-Keeps (tc ∷ tcs) s =
      ground (arith, run_call-Keeps tc s, run_calls-Keeps tcs (run_call r tc s).1)

  salvage_calls-Keeps : (tcs : List ToolCall) (s : Session W) → Keeps m 0 s (salvage_calls r tcs s)
  unfolding salvage_calls push_message
  salvage_calls-Keeps [] s = (refl, refl, omega arith)
  salvage_calls-Keeps (tc ∷ tcs) s =
      let (text, s1) = execute r tc s in
      let line = tool_result (suc s1.turns) tc.id tc.name (is_error text) (some text) in
      let s2 = (append r line s1).1 in
      Keeps-trans 0 0 s s2 (salvage_calls r tcs (push_message (tool_msg tc text) s2))
        (Keeps-trans 0 0 s s1 s2 (execute-Keeps tc s) (append-Keeps line s1 refl))
        (salvage_calls-Keeps tcs (push_message (tool_msg tc text) s2))

  Keeps-follow_up :
      (sc : Completion) (k : ℕ) (s : Session W) (p : (EngineError ⊎ Completion) × Session W)
      → Keeps m k s p.1
      → Keeps m k s (follow_up sc p).1
  unfolding follow_up
  Keeps-follow_up sc k s (inl e, s') h = h
  Keeps-follow_up sc k s (inr c, s') h = h

  salvage_tools-Keeps : (sc : Completion) (s : Session W) → Keeps m 1 s (salvage_tools r sc s).1
  unfolding salvage_tools push_message
  salvage_tools-Keeps sc s = elim (Bool-cases (is_empty sc.tool_calls)) [
    | inl e ↦ rw e (refl, refl, omega arith)
    | inr e ↦
        let s1 = salvage_calls r sc.tool_calls (push_message (assistant_msg sc) s) in
        rw e (
          Keeps-follow_up sc 1 s (chat r [] false s1) (
            Keeps-trans 0 1 s s1 (chat r [] false s1).1
              (salvage_calls-Keeps sc.tool_calls (push_message (assistant_msg sc) s))
              (chat-Keeps [] false s1)))
  ]

  write_report-Keeps :
      (trimmed : Text) (path : Option String) (s : Session W)
      → Keeps m 0 s (write_report r trimmed path s).1
  unfolding write_report
  write_report-Keeps trimmed none s = (refl, refl, omega arith)
  write_report-Keeps trimmed (some p) s = (
    refl,
    refl,
    omega (arith, metered.write_file_free p (salvage_report r.session_id s.turns trimmed) s.world),
  )

  written_path-Keeps : (trimmed : Text) (s : Session W) → Keeps m 0 s (written_path r trimmed s).1
  unfolding written_path
  written_path-Keeps trimmed s =
      write_report-Keeps trimmed (salvage_report_path r.options r.session_id) s

  report_salvage-Keeps : (sc : Completion) (s : Session W) → Keeps m 0 s (report_salvage r sc s).1
  unfolding report_salvage
  report_salvage-Keeps sc s = elim (Bool-cases (is_empty (trim sc.content))) [
    | inl e ↦
        rw e (append-Keeps (salvage (suc s.turns) (some "reasoning_ceiling") sc.content) s refl)
    | inr e ↦
        let line = salvage (suc s.turns) (some "reasoning_ceiling") sc.content in
        let s1 = (append r line s).1 in
        rw e (
          Keeps-trans 0 0 s s1 (written_path r (trim sc.content) s1).1 (append-Keeps line s refl)
            (written_path-Keeps (trim sc.content) s1))
  ]

  Keeps-salvage_reply :
      (s : Session W) (p : (EngineError ⊎ Completion) × Session W)
      → Keeps m 1 s p.1
      → Keeps m 2 s (salvage_reply r p).1
  unfolding salvage_reply
  Keeps-salvage_reply s (inl e, s') (t, d, c) =
      ground (
        arith,
        append-Keeps (salvage_failed (suc s'.turns) "reasoning_ceiling" (display e)) s' refl,
      )
  Keeps-salvage_reply s (inr sc, s') h =
      let (next, s1) = salvage_tools r sc s' in
      Keeps-trans 2 0 s s1 (report_salvage r next s1).1
        (Keeps-trans 1 1 s s' s1 h (salvage_tools-Keeps sc s')) (report_salvage-Keeps next s1)

  -- The pass after the reasoning ceiling calls the engine twice at most.
  pub salvage_ceiling-Keeps : (s : Session W) → Keeps m 2 s (salvage_ceiling r s).1
  unfolding salvage_ceiling push_message
  salvage_ceiling-Keeps s =
      let s1 = push_message (msg "user" salvage_prompt) s in
      Keeps-salvage_reply s (chat r r.tools false s1) (chat-Keeps r.tools false s1)
