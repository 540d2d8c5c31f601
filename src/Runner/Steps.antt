-- ===== src/Runner/Steps.antt =====
-- src/runner/mod.rs: the parts of a turn: tool calls, the two salvage passes.
use anser.Prelude.{
  suc, String, ◌<>◌, Bool, true, false, Option, none, some, List, [], ◌∷◌, ◌++◌, if◌then◌else◌,
  ◌==◌, nat_key, string_key, ◌⊎◌, inl, inr,
}
use anser.Prelude.Text.{Text, codes, trim, starts_with}
use anser.Engine.{ToolCall, Message, ToolSchema, Completion, EngineError, display}
use anser.Runner.Detector.{LoopState, ok, advisory, loop_detected, LoopDetector, record_action}
use anser.Runner.Session.{
  ToolError, RunnerError, looping, io, Event, tool_result, salvage, salvage_failed, Runner, Session,
  is_empty, msg, tool_msg, assistant_msg, salvage_report_path, salvage_report,
}

unfoldable pub push_message : {W : Type 0} → Message → Session W → Session W
push_message m s = record s { messages = s.messages ++ m ∷ [] }

-- `EventLogger::append`: the line reaches the ledger unless the file system fails.
unfoldable pub append : {W : Type 0} → Runner W → Event → Session W → Option String × Session W
append r event s =
    let (fault, w) = r.write event s.world in
    elim fault [
      | none ↦ (none, record s { ledger = s.ledger ++ event ∷ []; world = w })
      | some e ↦ (some e, record s { world = w })
    ]

unfoldable pub chat :
    {W : Type 0}
    → Runner W
    → List ToolSchema
    → Bool
    → Session W
    → (EngineError ⊎ Completion) × Session W
chat r tools stream s =
    let (reply, w) = r.chat s.messages tools stream s.world in (reply, record s { world = w })

-- The text of a call's outcome: an error is text as well.
unfoldable pub outcome_text : ToolError ⊎ Text → Text
outcome_text (inl e) = codes ("Error: tool '" <> e.name <> "' failed: " <> e.message)
outcome_text (inr text) = text

unfoldable pub execute : {W : Type 0} → Runner W → ToolCall → Session W → Text × Session W
execute r tc s =
    let (reply, w) = r.execute tc.name tc.arguments s.world in
    (outcome_text reply, record s { world = w })

unfoldable pub is_error : Text → Bool
is_error text = starts_with text (codes "Error:")

unfoldable pub advisory_text : String → Text
advisory_text name =
    if name == "read_file"
    then codes (
        "[Read Advisory] You have repeated the exact same read on this coordinate "
        <> "multiple times. If you are facing contradictory requirements across files or an architectural "
        <> "impasse, state your findings and ask for alignment rather than continuing to re-read.")
    else codes (
        "[Loop Advisory] You have repeated the same action '" <> name
        <> "' multiple times in a row. Change your approach or synthesize your findings.")

-- What the detector's answer does to the session.
unfoldable pub judged :
    {W : Type 0} → ToolCall → LoopState × LoopDetector → Session W → Option RunnerError × Session W
judged tc (ok, d) s = (none, record s { loop_detector = d })
judged tc (advisory, d) s =
    (none, push_message (msg "user" (advisory_text tc.name)) (record s { loop_detector = d }))
judged tc (loop_detected, d) s = (some (looping tc.name), record s { loop_detector = d })

unfoldable pub run_logged :
    {W : Type 0} → Runner W → ToolCall → Option String × Session W → Option RunnerError × Session W
run_logged r tc (some e, s) = (some (io e), s)
run_logged r tc (none, s) =
    judged tc (record_action r.hash_action tc.name tc.arguments s.loop_detector) s

-- One tool call: it runs, its result becomes a message and a line of the ledger, and the loop
-- detector judges it.
unfoldable pub run_call :
    {W : Type 0} → Runner W → ToolCall → Session W → Option RunnerError × Session W
run_call r tc s0 =
    let (text, s1) = execute r tc s0 in
    let s2 = push_message (tool_msg tc text) (record s1 { tool_activity = true }) in
    run_logged r tc (append r (tool_result s2.turns tc.id tc.name (is_error text) none) s2)

unfoldable pub run_calls :
    {W : Type 0} → Runner W → List ToolCall → Session W → Option RunnerError × Session W
run_calls r [] s = (none, s)
run_calls r (tc ∷ tcs) s =
    let (fault, s') = run_call r tc s in
    let rest = run_calls r tcs s' in elim fault [ none ↦ rest | some e ↦ (some e, s') ]

-- The tool calls of the salvage pass: no fault of the ledger stops them, and no detector judges them.
unfoldable pub salvage_calls : {W : Type 0} → Runner W → List ToolCall → Session W → Session W
salvage_calls r [] s = s
salvage_calls r (tc ∷ tcs) s0 =
    let (text, s1) = execute r tc s0 in
    let s2 =
      (append r (tool_result (suc s1.turns) tc.id tc.name (is_error text) (some text)) s1).1 in
    salvage_calls r tcs (push_message (tool_msg tc text) s2)

-- The synthesis that follows the tools of the salvage pass; its failure keeps the first reply.
unfoldable pub follow_up :
    {W : Type 0} → Completion → (EngineError ⊎ Completion) × Session W → Completion × Session W
follow_up sc (inl e, s) = (sc, s)
follow_up sc (inr next, s) = (next, s)

unfoldable pub salvage_tools :
    {W : Type 0} → Runner W → Completion → Session W → Completion × Session W
salvage_tools r sc s =
    if is_empty sc.tool_calls
    then (sc, s)
    else follow_up sc
        (chat r [] false (salvage_calls r sc.tool_calls (push_message (assistant_msg sc) s)))

unfoldable pub no_content_text : Text
no_content_text = codes (
    "The session terminated at its reasoning ceiling (reasoning_budget_exhausted). The salvage pass "
    <> "returned no content, so no summary is available; the conversation history is preserved in the "
    <> "session event ledger.")

unfoldable pub summary_text : Option String → Text → Text
summary_text path trimmed =
    codes (
      "The session terminated at its reasoning ceiling (status: reasoning_budget_exhausted); "
      <> "a salvage pass recovered the summary below.\n\n")
    ++ elim path [
      | none ↦ codes "Salvage summary:\n" ++ trimmed
      | some p ↦ codes ("Salvage report written to: " <> p <> "\n\nSalvage summary:\n") ++ trimmed
    ]

unfoldable pub salvage_failed_text : EngineError → Text
salvage_failed_text e = codes (
    "The session terminated at its reasoning ceiling (status: reasoning_budget_exhausted); "
    <> "the salvage pass failed ("
    <> display e
    <> "), so no summary is available. The conversation history is preserved in the session event ledger.")

-- The report is written to the path, if there is one; the path it was written to is given.
unfoldable pub write_report :
    {W : Type 0} → Runner W → Text → Option String → Session W → Option String × Session W
write_report r trimmed none s = (none, s)
write_report r trimmed (some p) s =
    let (fault, w) = r.write_file p (salvage_report r.session_id s.turns trimmed) s.world in
    (elim fault [ none ↦ some p | some e ↦ none ], record s { world = w })

unfoldable pub written_path : {W : Type 0} → Runner W → Text → Session W → Option String × Session W
written_path r trimmed s = write_report r trimmed (salvage_report_path r.options r.session_id) s

-- The final text of a salvage reply that has a summary, and of one that is blank.
unfoldable pub report_salvage : {W : Type 0} → Runner W → Completion → Session W → Text × Session W
report_salvage r sc s0 =
    let s1 = (append r (salvage (suc s0.turns) (some "reasoning_ceiling") sc.content) s0).1 in
    let (path, s2) = written_path r (trim sc.content) s1 in
    if is_empty (trim sc.content)
    then (no_content_text, s1)
    else (summary_text path (trim sc.content), s2)

unfoldable pub salvage_reply :
    {W : Type 0} → Runner W → (EngineError ⊎ Completion) × Session W → Text × Session W
salvage_reply r (inl e, s) = (
  salvage_failed_text e,
  (append r (salvage_failed (suc s.turns) "reasoning_ceiling" (display e)) s).1,
)
salvage_reply r (inr sc, s0) = let (next, s1) = salvage_tools r sc s0 in report_salvage r next s1

unfoldable pub salvage_prompt : Text
salvage_prompt = codes (
    "[Salvage] Reasoning budget ceiling reached for this dispatch. As an autonomous peer engineer, "
    <> "provide your collaborative status report: (1) summarize the findings, conclusions, and "
    <> "implementations you have reached so far, (2) present any data tables, metrics, or scratchpad "
    <> "artifacts produced, and (3) identify remaining blockers, failing test coordinates, or open "
    <> "questions for the next slice. You have full tools available if you need to inspect scratchpad "
    <> "outputs or verify test logs to ground your report.")

-- The pass after the reasoning ceiling.
unfoldable pub salvage_ceiling : {W : Type 0} → Runner W → Session W → Text × Session W
salvage_ceiling r s =
    salvage_reply r (chat r r.tools false (push_message (msg "user" salvage_prompt) s))
