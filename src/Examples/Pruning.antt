-- ===== src/Examples/Pruning.antt =====
-- The theorems on src/pruner.rs at a few sessions.
use anser.Prelude.{
  ℕ, ◌+◌, ◌*◌, ◌≤◌, ◌≡◌, refl, ◌⊎◌, inl, inr, String, true, none, some, List, [], ◌∷◌, ◌++◌, arith,
  length, Listed, string_key,
}
use anser.Prelude.Text.{codes}
use anser.Pruner.{
  PrunePolicy, SessionEntry, StateDir, directories, candidates, total_size, plan_sessions,
  session_has_terminal_event, active_task_session_ids, any_terminal, contains,
}
use anser.Pruner.Plans.{Prunable, plan_sessions-Prunable, plan_sessions_old, plan_sessions_size}
use anser.Pruner.Apply.{PrunePlan, already_applied, deleted, refused, plan, len, apply}
use anser.Pruner.Apply.Laws.{apply-plan}

abbrev ended : SessionEntry
ended = record {
  id = "s1";
  is_dir = true;
  mtime = 100;
  size = 10;
  events = some (some "session_end" ∷ []);
}

abbrev running : SessionEntry
running = record ended { id = "s2"; events = some (some "dispatch" ∷ []) }

abbrev dir : StateDir
dir = record {
  sessions = running ∷ ended ∷ [];
  tasks = [];
  slots = [];
  locks = [];
  telemetry = none;
  evo = [];
}

abbrev policy : PrunePolicy
policy = record { max_age_ms = 50; max_count = 1; max_size_mb = 1 }

ended-Prunable : Prunable dir ended
unfolding session_has_terminal_event any_terminal active_task_session_ids contains
ended-Prunable = (inr (inl refl), refl, refl, refl)

planned : Listed ended (plan_sessions policy 1000 dir)
planned = plan_sessions_old policy 1000 dir ended ended-Prunable (omega arith)

plan_sessions-Prunable_example : Prunable dir ended
plan_sessions-Prunable_example = plan_sessions-Prunable policy 1000 dir ended planned

plan_sessions_size_example :
    (length (candidates dir) ≤ length (plan_sessions policy 1000 dir))
    ⊎ (total_size (directories dir.sessions)
        ≤ 1 * 1024 * 1024 + total_size (plan_sessions policy 1000 dir))
plan_sessions_size_example = plan_sessions_size policy 1000 dir

abbrev layout : List (String × ℕ)
layout = ("s1", 100) ∷ []

abbrev made : PrunePlan
made = plan codes "/state" layout ("/state/sessions/s1" ∷ []) [] [] []

abbrev carried_out : PrunePlan
carried_out = record made { applied = true }

apply-plan_example :
    (apply codes (λ p. none) "/state" layout made []
      ≡ (deleted (len made), carried_out, [] ++ (("/state/sessions/s1" ∷ []) ++ [] ++ [] ++ [])))
    × ((root' : String) (layout' : List (String × ℕ)) (removed' : List String)
        → apply codes (λ p. none) root' layout' carried_out removed'
          ≡ (refused already_applied, carried_out, removed'))
apply-plan_example =
    apply-plan codes (λ p. none) "/state" layout ("/state/sessions/s1" ∷ []) [] [] [] [] (λ p. refl)
