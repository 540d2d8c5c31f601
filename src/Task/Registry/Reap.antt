-- ===== src/Task/Registry/Reap.antt =====
-- The orphan reaper of src/task/registry.rs.
use anser.Prelude.{
  ◌≡◌, refl, String, true, false, some, ◌⊎◌, inl, inr, List, [], ◌∷◌, arith, ◌≢◌, string_key, sym,
  ◌∙◌, ==_self, Key-cases,
}
use anser.Prelude.Dict.{Dict, lookup}
use text.Mathlib.TextEquality.{eq_iff}
use anser.Task.Records.{
  Codec, IsRoundTrip, TaskRecord, healthy, Env, Registry, no_fault, executing, is_executing,
  candidates, worker_died, orphan_reason, failed,
}
use anser.Task.Registry.{read_disk, refresh, transition, reap_one, get, reap_all, reap_orphans}
use anser.Task.Registry.Laws.{
  read_disk-refresh, lookup-refresh, current, reap_one_cases, counted_state,
}
use anser.Task.Registry.Named.{WellNamed, refresh-WellNamed, reap_one-WellNamed}
use anser.Task.Registry.Final.{reap_all-Kept}
use anser.Task.Registry.Effects.{transition_stamp, transition_frame}

-- A list holds an id.
abbrev pub Holds : String → List String → Type 0
Holds id [] = ⊥
Holds id (j ∷ js) = (j ≡ id) ⊎ Holds id js

candidates-Holds :
    (id : String) (rec : TaskRecord) (tasks : Dict String TaskRecord)
    → rec.id ≡ id
    → lookup id tasks ≡ some rec
    → is_executing rec.status ≡ true
    → Holds id (candidates tasks)
unfolding candidates lookup
candidates-Holds id rec [] own e x = cc
candidates-Holds id rec ((j, head) ∷ tasks) own e x =
    ground (arith, candidates-Holds id rec tasks own, eq_iff id j)

module _ (c : Codec) (law : IsRoundTrip c) (env : Env) where
  -- Looking at another task leaves the mirror alone.
  reap_one_frame :
      (id j : String) (r : Registry c.Bytes)
      → WellNamed c r
      → id ≢ j
      → read_disk c id (reap_one c env j r).1 ≡ read_disk c id r
  reap_one_frame id j r w ne =
      reap_one_cases c (λ t. read_disk c id t ≡ read_disk c id r) env j r
        (read_disk-refresh c j id r)
        λ rec e _.
          transition_frame c env j failed (some orphan_reason) (refresh c j r) law
            (refresh-WellNamed c j r w) id ne
          ∙ read_disk-refresh c j id r

  module _ (id : String) (rec : TaskRecord) (x : rec.status ≡ executing)
      (dead : worker_died env rec.pid ≡ true) (f : env.fault id ≡ no_fault) where
    abbrev reaped : TaskRecord
    reaped = record rec {
      status = failed;
      reason = some orphan_reason;
      heartbeat = env.now;
      ended_at = some env.now;
    }

    reap_one_dead :
        (r : Registry c.Bytes)
        → WellNamed c r
        → read_disk c id r ≡ healthy rec
        → read_disk c id (reap_one c env id r).1 ≡ healthy reaped
    unfolding reap_one get
    reap_one_dead r w h =
        let fresh = refresh c id r in
        let seen : current c id r ≡ some rec = lookup-refresh c id id r rec h ∙ rw ==_self in
        let seen' : current c id fresh ≡ some rec =
          lookup-refresh c id id fresh rec (read_disk-refresh c id id r ∙ h) ∙ rw ==_self in
        rw (seen, dead, reap_one)
          (counted_state c (λ t. read_disk c id t ≡ healthy reaped) env id r
            (transition c env id failed (some orphan_reason) fresh)
            (transition_stamp c env id failed (some orphan_reason) fresh law
              (refresh-WellNamed c id r w) rec seen' (rw x) f).1)

    reap_all_dead :
        (ids : List String) (r : Registry c.Bytes)
        → WellNamed c r
        → read_disk c id r ≡ healthy rec
        → Holds id ids
        → read_disk c id (reap_all c env ids r).1 ≡ healthy reaped
    unfolding reap_all
    reap_all_dead [] r w h m = elim m [ ]
    reap_all_dead (j ∷ ids) r w h m = elim (Key-cases j id) [
      | inl e ↦
          rw e
            (reap_all-Kept c law id reaped refl env ids _
              (reap_one-WellNamed c law env id r w, reap_one_dead r w h)).1
      | inr ne ↦
          reap_all_dead ids (reap_one c env j r).1 (reap_one-WellNamed c law env j r w)
            (reap_one_frame id j r w (λ e. ne (sym e)) ∙ h) (tail m ne)
    ]
      where
        tail : (j ≡ id) ⊎ Holds id ids → j ≢ id → Holds id ids
        tail (inl e) ne = absurd (ne e)
        tail (inr t) ne = t

    -- Where each record stands under its own id, the reaper turns the mirror of every task that memory
    -- shows as executing, and the disk as executing under a worker that is dead, to failed, if the save
    -- of that mirror meets no fault.
    pub reap_orphans_dead :
        (r : Registry c.Bytes) (mem : TaskRecord)
        → WellNamed c r
        → lookup id r.tasks ≡ some mem
        → mem.status ≡ executing
        → read_disk c id r ≡ healthy rec
        → read_disk c id (reap_orphans c env r).1 ≡ healthy reaped
    unfolding reap_orphans
    reap_orphans_dead r mem w e mx h =
        reap_all_dead (candidates r.tasks) r w h
          (candidates-Holds id mem r.tasks (w.in_memory id mem e) e (rw mx))

  module _ (id : String) (rec : TaskRecord) (spared : worker_died env rec.pid ≡ false) where
    reap_one_spared :
        (j : String) (r : Registry c.Bytes)
        → WellNamed c r
        → read_disk c id r ≡ healthy rec
        → read_disk c id (reap_one c env j r).1 ≡ healthy rec
    reap_one_spared j r w h = elim (Key-cases id j) [
      | inr ne ↦ reap_one_frame id j r w ne ∙ h
      | inl e ↦
          reap_one_cases c (λ t. read_disk c id t ≡ healthy rec) env j r
            (read_disk-refresh c j id r ∙ h)
            λ rec' seen dead. ground (arith, lookup-refresh c id j r rec h, eq_iff j id)
    ]

    reap_all_spared :
        (ids : List String) (r : Registry c.Bytes)
        → WellNamed c r
        → read_disk c id r ≡ healthy rec
        → read_disk c id (reap_all c env ids r).1 ≡ healthy rec
    unfolding reap_all
    reap_all_spared [] r w h = h
    reap_all_spared (j ∷ ids) r w h =
        reap_all_spared ids _ (reap_one-WellNamed c law env j r w) (reap_one_spared j r w h)

    -- The reaper leaves a mirror alone that names no worker, or a worker that is alive.
    pub reap_orphans_spared :
        (r : Registry c.Bytes)
        → WellNamed c r
        → read_disk c id r ≡ healthy rec
        → read_disk c id (reap_orphans c env r).1 ≡ healthy rec
    unfolding reap_orphans
    reap_orphans_spared r = reap_all_spared (candidates r.tasks) r
