-- ===== src/Task/Registry/Named.antt =====
-- Every record stands under its own id, in memory and on disk, src/task/registry.rs.
use anser.Prelude.{
  ℕ, ◌≡◌, refl, String, Option, some, inl, inr, List, [], ◌∷◌, arith, ◌<>◌, ◌+◌, string_key,
  Bool-cases, sym, ◌∙◌,
}
use anser.Prelude.Text.{decimal}
use anser.Prelude.Dict.{Dict, lookup, insert, lookup-insert}
use text.Mathlib.Text.{starts_with}
use text.Mathlib.TextEquality.{eq_iff}
use anser.Task.Records.{
  Codec, IsRoundTrip, TaskRecord, TaskStatus, DiskRead, healthy, absent, corrupt, Env, Registry,
  Result, bytes, unreadable, File, stamp, load_one, fresh_record, orphan_reason, failed, Decoded,
  parsed, malformed,
}
use anser.Task.Registry.{
  save, read_disk, refresh, commit, wake, transition, reap_one, reap_all, extend_budget, load_all,
  list, create,
}
use anser.Task.Registry.Laws.{
  read_disk-save, read_disk-remember, current, transition_cases, read_disk-wake, tasks-wake,
  reap_one_cases, extend_budget_cases, save_extended_cases,
}

abbrev pub Named : Dict String TaskRecord → Type 0
Named tasks = (id : String) (rec : TaskRecord) → lookup id tasks ≡ some rec → rec.id ≡ id

pub insert-Named :
    (id : String) (rec : TaskRecord) (tasks : Dict String TaskRecord)
    → rec.id ≡ id
    → Named tasks
    → Named (insert id rec tasks)
insert-Named id rec tasks e named j rec' h =
    ground (arith, lookup-insert j id rec tasks, named j rec', eq_iff j id)

module _ (c : Codec) where
  -- Every mirror that parses, and every record in memory, stands under its own id.
  pub record WellNamed (r : Registry c.Bytes) : Type 0 where
    pub on_disk : (id : String) (rec : TaskRecord) → read_disk c id r ≡ healthy rec → rec.id ≡ id
    pub in_memory : Named r.tasks

  -- Operations that read the directory and leave it alone.
  pub WellNamed-of_same :
      (r t : Registry c.Bytes)
      → ((j : String) → read_disk c j t ≡ read_disk c j r)
      → Named t.tasks
      → WellNamed r
      → WellNamed t
  WellNamed-of_same r t same named w = record {
    on_disk = λ id rec h. w.on_disk id rec (sym (same id) ∙ h);
    in_memory = named;
  }

  pub refresh_cases {ℓ} :
      (P : Registry c.Bytes → Type ℓ) (id : String) (r : Registry c.Bytes)
      → P r
      → ((rec : TaskRecord)
          → read_disk c id r ≡ healthy rec
          → P (record r { tasks = insert id rec r.tasks }))
      → P (refresh c id r)
  unfolding refresh
  refresh_cases P id r stay load = go (read_disk c id r) refl
    where
      go : (d : DiskRead) → read_disk c id r ≡ d → P (refresh c id r)
      go absent e = rw (e, refresh) stay
      go (corrupt message) e = rw (e, refresh) stay
      go (healthy rec) e = rw (e, refresh) (load rec e)

  pub remember-WellNamed :
      (id : String) (rec : TaskRecord) (r : Registry c.Bytes)
      → rec.id ≡ id
      → WellNamed r
      → WellNamed (record r { tasks = insert id rec r.tasks })
  remember-WellNamed id rec r e w =
      WellNamed-of_same r _ (read_disk-remember c (insert id rec r.tasks) r)
        (insert-Named id rec r.tasks e w.in_memory) w

  pub refresh-WellNamed :
      (id : String) (r : Registry c.Bytes) → WellNamed r → WellNamed (refresh c id r)
  refresh-WellNamed id r w =
      refresh_cases WellNamed id r w (λ rec h. remember-WellNamed id rec r (w.on_disk id rec h) w)

  pub current-id :
      (id : String) (r : Registry c.Bytes) (rec : TaskRecord)
      → WellNamed r
      → current c id r ≡ some rec
      → rec.id ≡ id
  current-id id r rec w h = (refresh-WellNamed id r w).in_memory id rec h

module _ (c : Codec) (law : IsRoundTrip c) where
  pub save-WellNamed :
      (env : Env) (rec : TaskRecord) (r : Registry c.Bytes)
      → WellNamed c r
      → WellNamed c (save c env rec r).1
  unfolding save
  save-WellNamed env rec r w = record {
    on_disk = λ j rec' h.
        ground (arith, read_disk-save c law env rec r j, w.on_disk j rec', eq_iff j rec.id);
    in_memory = w.in_memory;
  }

  pub commit-WellNamed :
      (env : Env) (id : String) (rec : TaskRecord) (r : Registry c.Bytes)
      → rec.id ≡ id
      → WellNamed c r
      → WellNamed c (commit c env id rec r).1
  unfolding commit
  commit-WellNamed env id rec r e w = save-WellNamed env rec _ (remember-WellNamed c id rec r e w)

  wake-WellNamed :
      (env : Env) (id : String) (target : TaskStatus) (res : Result TaskRecord × Registry c.Bytes)
      → WellNamed c res.1
      → WellNamed c (wake c env id target res).1
  wake-WellNamed env id target res w =
      WellNamed-of_same c res.1 _ (read_disk-wake c env id target res) (rw tasks-wake w.in_memory) w

  pub transition-WellNamed :
      (env : Env) (id : String) (target : TaskStatus) (reason : Option String)
      (r : Registry c.Bytes)
      → WellNamed c r
      → WellNamed c (transition c env id target reason r).1
  transition-WellNamed env id target reason r w =
      transition_cases c (λ res. WellNamed c res.1) env id target reason r (λ _. fresh)
        (λ _ _ _. fresh)
        (λ rec e _.
          wake-WellNamed env id target
            (commit c env id (stamp target reason env.now rec) (refresh c id r))
            (commit-WellNamed env id (stamp target reason env.now rec) (refresh c id r)
              (current-id c id r rec w e) fresh))
    where
      fresh : WellNamed c (refresh c id r)
      fresh = refresh-WellNamed c id r w

  pub reap_one-WellNamed :
      (env : Env) (id : String) (r : Registry c.Bytes)
      → WellNamed c r
      → WellNamed c (reap_one c env id r).1
  reap_one-WellNamed env id r w =
      reap_one_cases c (WellNamed c) env id r (refresh-WellNamed c id r w) (λ rec e _.
        transition-WellNamed env id failed (some orphan_reason) _ (refresh-WellNamed c id r w))

  pub reap_all-WellNamed :
      (env : Env) (ids : List String) (r : Registry c.Bytes)
      → WellNamed c r
      → WellNamed c (reap_all c env ids r).1
  unfolding reap_all
  reap_all-WellNamed env [] r w = w
  reap_all-WellNamed env (id ∷ ids) r w =
      reap_all-WellNamed env ids (reap_one c env id r).1 (reap_one-WellNamed env id r w)

  pub extend_budget-WellNamed :
      (env : Env) (id : String) (n : ℕ) (r : Registry c.Bytes)
      → WellNamed c r
      → WellNamed c (extend_budget c env id n r).1
  extend_budget-WellNamed env id n r w =
      extend_budget_cases c (WellNamed c) env id r n w λ rec budget e.
        let changed : TaskRecord = record rec { turns_budget = budget; heartbeat = env.now } in
        let w' =
          refresh-WellNamed c id _ (remember-WellNamed c id changed r (w.in_memory id rec e) w) in
        save_extended_cases c (WellNamed c) env id _ budget w'
          (λ rec' _. save-WellNamed env rec' _ w')

  pub create-WellNamed :
      (env : Env) (prompt cwd session_id : String) (r : Registry c.Bytes)
      → WellNamed c r
      → WellNamed c (create c env prompt cwd session_id r).1
  unfolding create read_disk
  create-WellNamed env prompt cwd session_id r w =
      elim (Bool-cases (save c env rec (record r { next_seq = r.next_seq + 1 })).0) [
        | inl e ↦ rw (e, create) (remember-WellNamed c rec.id rec _ refl saved)
        | inr e ↦ rw (e, create) saved
      ]
    where
      rec : TaskRecord
      rec = fresh_record ("task_" <> decimal (r.next_seq + 1)) env.now prompt cwd session_id

      saved : WellNamed c (save c env rec (record r { next_seq = r.next_seq + 1 })).1
      saved = save-WellNamed env rec _ (WellNamed-of_same c r _ (λ j. refl) w.in_memory w)

module _ (c : Codec) where
  load_one-Named :
      (name : String) (d : Decoded) (tasks : Dict String TaskRecord)
      → Named tasks
      → Named (load_one name d tasks)
  unfolding load_one
  load_one-Named name (malformed _) tasks h = h
  load_one-Named name (parsed rec) tasks h = elim (Bool-cases (starts_with name "task_")) [
    | inl e ↦ rw e (insert-Named rec.id rec tasks refl h)
    | inr e ↦ rw e h
  ]

  load_all-Named :
      (d : Dict String (File c.Bytes)) (tasks : Dict String TaskRecord)
      → Named tasks
      → Named (load_all c d tasks)
  unfolding load_all
  load_all-Named [] tasks h = h
  load_all-Named ((name, unreadable _) ∷ d) tasks h = load_all-Named d tasks h
  load_all-Named ((name, bytes t) ∷ d) tasks h =
      load_all-Named d _ (load_one-Named name (c.decode t) tasks h)

  pub list-WellNamed : (r : Registry c.Bytes) → WellNamed c r → WellNamed c (list c r).1
  unfolding list
  list-WellNamed r w =
      WellNamed-of_same c r _ (read_disk-remember c (load_all c r.dir.mirrors r.tasks) r)
        (load_all-Named r.dir.mirrors r.tasks w.in_memory) w
