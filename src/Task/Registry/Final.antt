-- ===== src/Task/Registry/Final.antt =====
-- Sequences of calls on the registry of src/task/registry.rs, `create` and `update` apart, and a
-- terminal record on disk.
use anser.Prelude.{ℕ, ◌≡◌, String, true, Option, some, List, [], ◌∷◌, arith, string_key, ◌∙◌}
use anser.Prelude.Dict.{insert}
use text.Mathlib.TextEquality.{eq_iff}
use anser.Task.Records.{
  Codec, IsRoundTrip, TaskRecord, TaskStatus, healthy, Env, Registry, is_terminal, stamp,
  candidates, orphan_reason, failed, subscribe_terminal,
}
use anser.Task.Registry.{
  read_disk, refresh, get, commit, transition, reap_one, reap_all, reap_orphans, extend_budget,
  list,
}
use anser.Task.Registry.Laws.{
  read_disk-save, read_disk-remember, read_disk-refresh, lookup-refresh, transition_cases,
  read_disk-wake, read_disk-commit, reap_one_cases, extend_budget_cases, save_extended_cases,
}
use anser.Task.Registry.Named.{
  WellNamed, WellNamed-of_same, current-id, refresh-WellNamed, remember-WellNamed,
  transition-WellNamed, extend_budget-WellNamed, list-WellNamed,
}

-- The calls other than `create` and `update`.
pub data Call : Type 0 where
  gets subscribes : (id : String) → Call
  transitions : (id : String) (target : TaskStatus) (reason : Option String) → Call
  extends : (id : String) (n : ℕ) → Call
  reaps lists : Call

module _ (c : Codec) where
  pub step : Env × Call → Registry c.Bytes → Registry c.Bytes
  step (env, gets id) r = (get c id r).1
  step (env, subscribes id) r = subscribe_terminal id r
  step (env, transitions id target reason) r = (transition c env id target reason r).1
  step (env, extends id n) r = (extend_budget c env id n r).1
  step (env, reaps) r = (reap_orphans c env r).1
  step (env, lists) r = (list c r).1

  pub run : List (Env × Call) → Registry c.Bytes → Registry c.Bytes
  run [] r = r
  run (e ∷ es) r = run es (step e r)

module _ (c : Codec) (law : IsRoundTrip c) (id : String) (rec : TaskRecord)
    (over : is_terminal rec.status ≡ true) where
  abbrev pub Kept : Registry c.Bytes → Type 0
  Kept r = WellNamed c r × (read_disk c id r ≡ healthy rec)

  refresh-Kept : (j : String) (r : Registry c.Bytes) → Kept r → Kept (refresh c j r)
  refresh-Kept j r (w, h) = (refresh-WellNamed c j r w, read_disk-refresh c j id r ∙ h)

  transition-Kept :
      (env : Env) (j : String) (target : TaskStatus) (reason : Option String) (r : Registry c.Bytes)
      → Kept r
      → Kept (transition c env j target reason r).1
  transition-Kept env j target reason r (w, h) = (
    transition-WellNamed c law env j target reason r w,
    transition_cases c (λ res. read_disk c id res.1 ≡ healthy rec) env j target reason r
        (λ _. fresh.1) (λ _ _ _. fresh.1)
        λ rec' e live. ground (
          arith,
          read_disk-wake c env j target
              (commit c env j (stamp target reason env.now rec') (refresh c j r)) id,
          read_disk-commit c law env j (stamp target reason env.now rec') (refresh c j r) id,
          current-id c j r rec' w e,
          lookup-refresh c id j r rec h,
          eq_iff id rec'.id,
          eq_iff j id,
          fresh.1,
        ),
  )
    where
      fresh : Kept (refresh c j r)
      fresh = refresh-Kept j r (w, h)

  reap_one-Kept :
      (env : Env) (j : String) (r : Registry c.Bytes) → Kept r → Kept (reap_one c env j r).1
  reap_one-Kept env j r k =
      reap_one_cases c Kept env j r (refresh-Kept j r k)
        (λ rec' _ _. transition-Kept env j failed (some orphan_reason) _ (refresh-Kept j r k))

  pub reap_all-Kept :
      (env : Env) (ids : List String) (r : Registry c.Bytes)
      → Kept r
      → Kept (reap_all c env ids r).1
  unfolding reap_all
  reap_all-Kept env [] r k = k
  reap_all-Kept env (j ∷ ids) r k = reap_all-Kept env ids _ (reap_one-Kept env j r k)

  -- What `extend_budget` saves of a finished task is the finished record.
  extend_budget-Kept :
      (env : Env) (j : String) (n : ℕ) (r : Registry c.Bytes)
      → Kept r
      → Kept (extend_budget c env j n r).1
  extend_budget-Kept env j n r (w, h) = (
    extend_budget-WellNamed c law env j n r w,
    extend_budget_cases c (λ t. read_disk c id t ≡ healthy rec) env j r n h
        λ mem budget e.
          let t : Registry c.Bytes = record r {
            tasks = insert j (record mem { turns_budget = budget; heartbeat = env.now }) r.tasks;
          } in
          let h' : read_disk c id t ≡ healthy rec = read_disk-remember c t.tasks r id ∙ h in
          let w' : WellNamed c t = remember-WellNamed c j _ r (w.in_memory j mem e) w in
          save_extended_cases c (λ t. read_disk c id t ≡ healthy rec) env j t budget
            (read_disk-refresh c j id t ∙ h')
            λ rec' e'. ground (
              arith,
              read_disk-save c law env rec' (refresh c j t) id,
              read_disk-refresh c j id t,
              current-id c j t rec' w' e',
              lookup-refresh c id j t rec h',
              eq_iff id rec'.id,
              eq_iff j id,
              h',
            ),
  )

  subscribe_terminal-Kept :
      (j : String) (r : Registry c.Bytes) → Kept r → Kept (subscribe_terminal j r)
  unfolding subscribe_terminal read_disk
  subscribe_terminal-Kept j r (w, h) = (
    WellNamed-of_same c r _ (λ i. ground arith) (λ i rec' e. w.in_memory i rec' (ground arith)) w,
    ground arith,
  )

  step-Kept : (e : Env × Call) (r : Registry c.Bytes) → Kept r → Kept (step c e r)
  unfolding step get reap_orphans list read_disk
  step-Kept (env, gets j) r k = refresh-Kept j r k
  step-Kept (env, subscribes j) r k = subscribe_terminal-Kept j r k
  step-Kept (env, transitions j target reason) r k = transition-Kept env j target reason r k
  step-Kept (env, extends j n) r k = extend_budget-Kept env j n r k
  step-Kept (env, reaps) r k = reap_all-Kept env (candidates r.tasks) r k
  step-Kept (env, lists) r k = (list-WellNamed c r k.0, k.1)

  run-Kept : (es : List (Env × Call)) (r : Registry c.Bytes) → Kept r → Kept (run c es r)
  unfolding run
  run-Kept [] r k = k
  run-Kept (e ∷ es) r k = run-Kept es (step c e r) (step-Kept e r k)

  -- Exactly one terminal state: where every record stands under its own id and the mirror of a task
  -- holds a terminal record, it holds that very record after any sequence of lookups, subscriptions,
  -- transitions, extensions, reapings and listings on the registry, whatever saves fail.
  pub run_final :
      (es : List (Env × Call)) (r : Registry c.Bytes)
      → WellNamed c r
      → read_disk c id r ≡ healthy rec
      → read_disk c id (run c es r) ≡ healthy rec
  run_final es r w h = (run-Kept es r (w, h)).1
