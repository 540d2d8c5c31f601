-- ===== src/Runner/Loop.antt =====
-- src/runner/mod.rs: `run_session`.
pub mod Metering
pub mod Budget
pub mod Ledger
pub mod Outcome
pub mod Results
pub mod Promises
pub mod Landing
use anser.Prelude.{
  ℕ, zero, suc, ◌+◌, ◌-◌, String, ◌<>◌, Bool, true, false, not, ◌&&◌, ◌||◌, Option, none, some,
  List, [], ◌∷◌, ◌++◌, if◌then◌else◌, ◌==◌, nat_key, string_key, leb, ltb, length, ◌⊎◌, inl, inr,
}
use anser.Prelude.Text.{Text, codes, decimal, trim, starts_with}
use anser.Engine.{ToolCall, Message, ToolSchema, Completion, EngineError, display}
use anser.Runner.Detector.{LoopState, LoopDetector, new}
use anser.Runner.Session.{
  default_turns_budget, landing_window, loop_window, loop_threshold, Status, completed,
  completed_budget_exhausted, reasoning_budget_exhausted, failed, SessionResult, RunnerError,
  engine, looping, io, Event, dispatch, tool_result, salvage, salvage_failed, final, Runner,
  Session, is_empty, is_reasoning_ceiling, msg, assistant_msg,
}
use anser.Runner.Steps.{push_message, append, chat, run_calls, salvage_ceiling}

-- How one turn ends: the loop goes on, stops with a final text, or returns an error.
pub data Next : Type 0 where
  again : Next
  ended : Text → Status → Next
  fault : RunnerError → Next

unfoldable pub landing_notice : ℕ → Text
landing_notice remaining = codes (
    "[Budget Notice] You have "
    <> decimal remaining
    <> " turns left in your budget. Land now: synthesize your final deliverable, findings, and grounded "
    <> "conclusions. Do not start new tool calls.")

-- Cooperative landing, in the last turns and only once.
unfoldable pub land : {W : Type 0} → ℕ → Session W → Session W
land budget s =
    if leb (budget - s.turns) landing_window && not s.landing_injected
    then record (push_message (msg "user" (landing_notice (budget - s.turns))) s) {
      landing_injected = true;
    }
    else s

unfoldable pub degenerate_text : Text
degenerate_text = codes (
    "DegenerateFinalError: the model produced an empty final after tool activity; the salvage retry "
    <> "also produced no content.")

unfoldable pub retry_prompt : Text
retry_prompt = codes (
    "[Salvage] Your previous response was empty. Provide a proper summary of your findings and the work "
    <> "you have completed.")

unfoldable pub retry_logged : {W : Type 0} → Text → Option String × Session W → Next × Session W
retry_logged content (some e, s) = (fault (io e), s)
retry_logged content (none, s) =
    (if is_empty (trim content) then ended degenerate_text failed else ended content completed, s)

unfoldable pub retry_reply :
    {W : Type 0} → Runner W → (EngineError ⊎ Completion) × Session W → Next × Session W
retry_reply r (inl e, s) = (fault (engine e), s)
retry_reply r (inr c, s) = retry_logged c.content (append r (salvage s.turns none c.content) s)

-- A blank final after tool activity gets one more chance.
unfoldable pub retry : {W : Type 0} → Runner W → Session W → Next × Session W
retry r s = retry_reply r (chat r [] true (push_message (msg "user" retry_prompt) s))

-- A completion without tool calls ends the session.
unfoldable pub conclude : {W : Type 0} → Runner W → Completion → Session W → Next × Session W
conclude r c s =
    if is_reasoning_ceiling c
    then (let (text, s') = salvage_ceiling r s in (ended text reasoning_budget_exhausted, s'))
    else if is_empty (trim c.content) && s.tool_activity
    then retry r s
    else (ended c.content completed, s)

unfoldable pub after_calls : {W : Type 0} → Option RunnerError × Session W → Next × Session W
after_calls (none, s) = (again, s)
after_calls (some e, s) = (fault e, s)

unfoldable pub turn_logged :
    {W : Type 0} → Runner W → Completion → Option String × Session W → Next × Session W
turn_logged r c (some e, s) = (fault (io e), s)
turn_logged r c (none, s0) =
    let s = push_message (assistant_msg c) s0 in
    if is_empty c.tool_calls then conclude r c s else after_calls (run_calls r c.tool_calls s)

unfoldable pub turn_reply :
    {W : Type 0} → Runner W → (EngineError ⊎ Completion) × Session W → Next × Session W
turn_reply r (inl e, s) = (fault (engine e), s)
turn_reply r (inr c, s) =
    turn_logged r c (append r (dispatch s.turns c.finish_reason c.content c.tool_calls) s)

-- One round of the loop.
unfoldable pub turn : {W : Type 0} → Runner W → (budget : ℕ) → Session W → Next × Session W
turn r budget s0 =
    let s1 = land budget s0 in
    turn_reply r (chat r r.tools true (record s1 { turns = suc s1.turns }))

-- The rest of the loop, unless the turn has ended it.
unfoldable pub go_on :
    {W : Type 0} → (rest : Next × Session W) → Next × Session W → Next × Session W
go_on rest (again, s) = rest
go_on rest (ended text status, s) = (ended text status, s)
go_on rest (fault e, s) = (fault e, s)

-- The `while` loop, on fuel; `again` is what it leaves by when the turns reach the budget.
unfoldable pub turns_loop :
    {W : Type 0} → Runner W → (budget fuel : ℕ) → Session W → Next × Session W
turns_loop r budget zero s = (again, s)
turns_loop r budget (suc fuel) s =
    let this = turn r budget s in
    let rest = turns_loop r budget fuel this.1 in
    if ltb s.turns budget then go_on rest this else (again, s)

unfoldable pub final_logged :
    {W : Type 0}
    → SessionResult
    → Option String × Session W
    → (RunnerError ⊎ SessionResult) × Session W
final_logged result (some e, s) = (inl (io e), s)
final_logged result (none, s) = (inr result, s)

unfoldable pub record_final :
    {W : Type 0}
    → Runner W
    → (budget : ℕ) → Text
    → Status
    → Session W
    → (RunnerError ⊎ SessionResult) × Session W
record_final r budget text status s =
    final_logged (record { final_text = text; turns = s.turns; budget = budget; status = status })
      (append r (final s.turns status text) s)

unfoldable pub exhausted_prompt : Text
exhausted_prompt = codes (
    "[Final] Your turn budget is exhausted. Synthesize your final deliverable, findings, and grounded "
    <> "conclusions now.")

unfoldable pub exhausted_logged :
    {W : Type 0}
    → Runner W
    → (budget : ℕ) → Text
    → Option String × Session W
    → (RunnerError ⊎ SessionResult) × Session W
exhausted_logged r budget text (some e, s) = (inl (io e), s)
exhausted_logged r budget text (none, s) = record_final r budget text completed_budget_exhausted s

unfoldable pub exhausted_reply :
    {W : Type 0}
    → Runner W
    → (budget : ℕ) → (EngineError ⊎ Completion) × Session W
    → (RunnerError ⊎ SessionResult) × Session W
exhausted_reply r budget (inl e, s) = (inl (engine e), s)
exhausted_reply r budget (inr c, s) =
    exhausted_logged r budget c.content
      (append r (dispatch (suc s.turns) c.finish_reason c.content []) s)

-- A plain success on the last turn counts as an exhausted budget; no other status changes.
unfoldable pub reclassified : (budget turns : ℕ) → Status → Status
reclassified budget turns completed =
    if leb budget turns then completed_budget_exhausted else completed
reclassified budget turns status = status

-- What follows the loop.
unfoldable pub finish :
    {W : Type 0}
    → Runner W
    → (budget : ℕ) → Next × Session W
    → (RunnerError ⊎ SessionResult) × Session W
finish r budget (again, s) =
    exhausted_reply r budget (chat r [] true (push_message (msg "user" exhausted_prompt) s))
finish r budget (ended text status, s) =
    record_final r budget text (reclassified budget s.turns status) s
finish r budget (fault e, s) = (inl e, s)

unfoldable pub effective_budget : ℕ → ℕ
effective_budget turns_budget = if turns_budget == 0 then default_turns_budget else turns_budget

unfoldable pub start :
    {W : Type 0} → (system_prompt user_prompt : Text) → List Event → W → Session W
start system_prompt user_prompt ledger w = record {
  messages = msg "system" system_prompt ∷ msg "user" user_prompt ∷ [];
  loop_detector = new loop_window loop_threshold;
  turns = 0;
  tool_activity = false;
  landing_injected = false;
  ledger = ledger;
  world = w;
}

unfoldable pub run_session :
    {W : Type 0}
    → Runner W
    → (system_prompt user_prompt : Text) → (turns_budget : ℕ) → List Event
    → W
    → (RunnerError ⊎ SessionResult) × Session W
run_session r system_prompt user_prompt turns_budget ledger w =
    let budget = effective_budget turns_budget in
    finish r budget (turns_loop r budget budget (start system_prompt user_prompt ledger w))
