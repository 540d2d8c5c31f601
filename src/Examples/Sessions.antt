-- ===== src/Examples/Sessions.antt =====
-- The theorems on src/runner at sessions of a few turns.
use anser.Prelude.{
  min, leb, ◌||◌, ◌-◌, ℕ, zero, suc, ◌+◌, ◌≤◌, ◌<◌, ◌≡◌, ◌↔◌, ◌⊎◌, inl, inr, refl, ap, true, false,
  none, some, [], ◌∷◌, arith, nat_key,
}
use anser.Prelude.Text.{Text, codes}
use anser.Engine.{ToolCall, Completion}
use anser.Runner.Detector.{LoopDetector, new, answers, record_hash, streak}
use anser.Runner.Detector.Laws.{Before, answers-new, Tracks, expected, record_hash-expected}
use anser.Runner.Session.{
  completed, completed_budget_exhausted, reasoning_budget_exhausted, SessionResult, RunnerError,
  Runner, Session,
}
use anser.Runner.Steps.{
  push_message, append, chat, execute, outcome_text, is_error, judged, run_logged, run_call,
  run_calls, salvage_tools, write_report, written_path, report_salvage, salvage_reply,
  salvage_ceiling,
}
use anser.Runner.Session.{is_empty, is_reasoning_ceiling, ends_at_ceiling, salvage_report_path}
use anser.Runner.Detector.{record_action, push}
use anser.Prelude.Text.{starts_with, strip_prefix, trim, trim_start, is_whitespace}
use anser.Runner.Loop.{
  again, finish, go_on, turn, turn_reply, turn_logged, land, after_calls, conclude, record_final,
  final_logged, reclassified, turns_loop, effective_budget, start, run_session,
}
use anser.Runner.Loop.Metering.{IsMetered}
use anser.Runner.Loop.Ledger.{dispatch_turns, any_ceiling}
use anser.Runner.Loop.Landing.{Noticed, first, next, Rounds-Noticed}
use anser.Runner.Loop.Promises.{
  run_session_budget, run_session_ceiling, run_session_dispatches, run_session_calls,
  turns_loop_enough,
}

abbrev call : ToolCall
call = record { index = 0; id = "c1"; name = "bash"; arguments = "ls" }

-- The world counts the engine's calls. The engine calls a tool in its first turn and then stops at
-- its reasoning ceiling, with a report in the salvage pass.
abbrev reply : ℕ → Completion
reply zero = record {
  content = codes "";
  tool_calls = call ∷ [];
  finish_reason = some "tool_calls";
}
reply (suc zero) = record {
  content = codes "So far";
  tool_calls = [];
  finish_reason = some "length";
}
reply _ = record { content = codes "Report"; tool_calls = []; finish_reason = some "stop" }

abbrev runner : Runner ℕ
runner = record {
  chat = λ messages tools stream n. (inr (reply n), suc n);
  execute = λ name args n. (inr (codes "file"), n);
  write = λ e n. (none, n);
  write_file = λ p t n. (none, n);
  hash_action = λ name args. 1;
  tools = [];
  session_id = "s1";
  options = none;
}

runner-IsMetered : IsMetered runner (λ n. n)
runner-IsMetered = record {
  chat_cost = λ messages tools stream n. omega arith;
  execute_free = λ name args n. omega arith;
  write_free = λ e n. omega arith;
  write_file_free = λ p t n. omega arith;
}

abbrev session : (RunnerError ⊎ SessionResult) × Session ℕ
session = run_session runner (codes "sys") (codes "task") 4 [] 0

abbrev text_of : RunnerError ⊎ SessionResult → Text
text_of (inl e) = []
text_of (inr res) = res.final_text

abbrev result : SessionResult
result = record {
  final_text = text_of session.0;
  turns = 2;
  budget = 4;
  status = reasoning_budget_exhausted;
}

session_answers : session.0 ≡ inr result
unfolding run_session finish turns_loop effective_budget start go_on turn turn_reply chat
    turn_logged append is_empty land push_message after_calls run_calls run_call run_logged execute
    outcome_text record_action record_hash new streak push judged is_error starts_with strip_prefix
    conclude is_reasoning_ceiling ends_at_ceiling salvage_ceiling salvage_reply salvage_tools
    report_salvage written_path write_report salvage_report_path trim trim_start is_whitespace
    record_final final_logged reclassified
session_answers = refl

session_runs : session ≡ (inr result, session.1)
session_runs = ap (λ a. (a, session.1)) session_answers

run_session_budget_example :
    (result.budget ≡ 4) × (result.turns ≤ 4) × (result.status ≡ completed → result.turns < 4)
run_session_budget_example =
    run_session_budget runner (codes "sys") (codes "task") 4 0 result session.1 session_runs

run_session_ceiling_example :
    (result.status ≡ reasoning_budget_exhausted) ↔ (any_ceiling 2 session.1.ledger ≡ true)
run_session_ceiling_example =
    run_session_ceiling runner (codes "sys") (codes "task") 4 0 result session.1 session_runs

run_session_dispatches_example :
    (dispatch_turns session.1.ledger ≡ 1 ∷ 2 ∷ [])
    ⊎ ((dispatch_turns session.1.ledger ≡ 1 ∷ 2 ∷ 3 ∷ [])
        × (result.turns ≡ effective_budget 4)
        × (result.status ≡ completed_budget_exhausted))
run_session_dispatches_example =
    run_session_dispatches runner (codes "sys") (codes "task") 4 0 result session.1 session_runs

run_session_calls_example :
    (run_session runner (codes "sys") (codes "task") 4 [] 0).1.world ≤ 0 + effective_budget 4 + 2
run_session_calls_example =
    run_session_calls runner (λ n. n) (codes "sys") (codes "task") 4 0 runner-IsMetered

turns_loop_enough_example :
    let s = start {W = ℕ} (codes "sys") (codes "task") [] 0 in
    turns_loop runner 4 9 s ≡ turns_loop runner 4 4 s
turns_loop_enough_example =
    turns_loop_enough runner 4 4 9 (start {W = ℕ} (codes "sys") (codes "task") [] 0) (omega arith)
      (omega arith)

abbrev detector : LoopDetector
detector = record { window = 6; threshold = 3; history = 5 ∷ 7 ∷ 7 ∷ []; advisory_injected = false }

record_hash-expected_example :
    ((record_hash 7 detector).0 ≡ expected detector (streak 7 (7 ∷ 7 ∷ 7 ∷ 5 ∷ [])))
    × Tracks (record_hash 7 detector).1 (7 ∷ 7 ∷ 7 ∷ 5 ∷ [])
    × ((record_hash 7 detector).1.window ≡ 6)
    × ((record_hash 7 detector).1.threshold ≡ 3)
    × ((record_hash 7 detector).1.advisory_injected
        ≡ (detector.advisory_injected || leb 3 (min 6 (streak 7 (7 ∷ 7 ∷ 7 ∷ 5 ∷ [])))))
record_hash-expected_example = record_hash-expected 7 detector (7 ∷ 7 ∷ 5 ∷ []) (refl, omega arith)

answers-new_example : Before (answers (new 6 3) (7 ∷ 7 ∷ 7 ∷ 7 ∷ 5 ∷ []))
answers-new_example = answers-new 6 3 (7 ∷ 7 ∷ 7 ∷ 7 ∷ 5 ∷ [])

abbrev begun : Session ℕ
begun = start (codes "sys") (codes "task") [] 0

goes_on : (turn runner 4 begun).0 ≡ again
unfolding start turn turn_reply chat turn_logged append is_empty land push_message after_calls
    run_calls run_call run_logged execute outcome_text record_action record_hash new streak push
    judged
goes_on = refl

late : 4 - (turn runner 4 begun).1.turns ≤ 5
late = omega arith

Rounds-Noticed_example :
    (u : Session ℕ) × Noticed u
    × (u.world ≡ (turn runner 4 begun).1.world)
    × (turn runner 4 (turn runner 4 begun).1 ≡ turn_reply runner (chat runner runner.tools true u))
Rounds-Noticed_example =
    Rounds-Noticed runner 4 (codes "sys") (codes "task") [] 0 (turn runner 4 begun).1
      (next first (ap (λ n. (n, (turn runner 4 begun).1)) goes_on)) late
