-- ===== src/Task/Status/Laws.antt =====
-- What the status server of src/task/wait.rs answers.
use anser.Prelude.{
  ℕ, ◌≡◌, refl, String, true, Option, none, some, ◌∷◌, arith, if◌then◌else◌, string_key, ◌∙◌,
  ==_self,
}
use anser.Prelude.Dict.{lookup}
use anser.Task.Records.{
  Codec, IsRoundTrip, TaskRecord, is_terminal, Env, Registry, DiskRead, absent, corrupt, healthy,
  candidates,
}
use anser.Task.Registry.{read_disk, get, refresh, reap_orphans, reap_all}
use anser.Task.Registry.Laws.{lookup-refresh, read_disk-refresh}
use anser.Task.Registry.Final.{reap_all-Kept}
use anser.Task.Registry.Named.{WellNamed}
use anser.Task.Status.{
  Turns, info_response, timeout_response, not_found_response, malformed_response, answer_after,
  wait_handler, status_handler, wait_for_terminal, Response, Turn, woken, polled,
}

module _ (c : Codec) where
  -- Where the mirror parses, `get` answers with it and leaves the directory alone.
  get-healthy :
      (id : String) (r : Registry c.Bytes) (rec : TaskRecord)
      → read_disk c id r ≡ healthy rec
      → ((get c id r).0 ≡ some rec) × (read_disk c id (get c id r).1 ≡ healthy rec)
  unfolding get
  get-healthy id r rec h =
      (lookup-refresh c id id r rec h ∙ rw ==_self, read_disk-refresh c id id r ∙ h)

  answer_after_terminal :
      (now : ℕ) (id : String) (r : Registry c.Bytes) (rec : TaskRecord)
      → read_disk c id r ≡ healthy rec
      → (answer_after c now id r).0
        ≡ (if is_terminal rec.status then info_response rec now else timeout_response)
  unfolding answer_after
  answer_after_terminal now id r rec h = ground (arith, get-healthy id r rec h)

  abbrev pub reaped : Env → Registry c.Bytes → Registry c.Bytes
  reaped env r = (reap_orphans c env r).1

  -- What a status request should be answered, from the mirror and from the record in memory.
  abbrev pub expected : DiskRead → Option TaskRecord → ℕ → Response
  expected (healthy rec) _ now = info_response rec now
  expected absent (some rec) now = info_response rec now
  expected absent none now = not_found_response
  expected (corrupt _) (some rec) now = info_response rec now
  expected (corrupt message) none now = malformed_response message

  -- A status request first reaps orphans. Then a mirror that parses decides the answer; where it is
  -- missing or malformed the record in memory does; and only a task that memory does not know gets
  -- 404 for a missing mirror and 400 for a malformed one.
  pub status_handler-expected :
      (env : Env) (id : String) (r : Registry c.Bytes)
      → (status_handler c env id r).0
        ≡ expected (read_disk c id (reaped env r)) (lookup id (reaped env r).tasks) env.now
  unfolding status_handler get refresh
  status_handler-expected env id r = go (read_disk c id (reaped env r)) refl
    where
      go :
          (d : DiskRead)
          → read_disk c id (reaped env r) ≡ d
          → (status_handler c env id r).0 ≡ expected d (lookup id (reaped env r).tasks) env.now
      go (healthy rec) e = ground (arith, lookup-refresh c id id (reaped env r) rec e, ==_self id)
      go absent e = ground arith
      go (corrupt message) e = ground arith

  -- Once a turn of the wait leaves a terminal record in the mirror, the loop stops in that turn,
  -- whether the broadcast or the poll ended it, and that record is the answer: later turns play no
  -- part.
  pub wait_sees_terminal :
      (now : ℕ) (id : String) (meanwhile : Registry c.Bytes → Registry c.Bytes) (t : Turn)
      (turns : Turns c) (r : Registry c.Bytes) (rec : TaskRecord)
      → read_disk c id (meanwhile r) ≡ healthy rec
      → is_terminal rec.status ≡ true
      → (answer_after c now id (wait_for_terminal c id ((meanwhile, t) ∷ turns) r)).0
        ≡ info_response rec now
  unfolding wait_for_terminal
  wait_sees_terminal now id meanwhile woken turns r rec h over = ground (
    arith,
    get-healthy id (meanwhile r) rec h,
    answer_after_terminal now id (get c id (meanwhile r)).1 rec,
  )
  wait_sees_terminal now id meanwhile polled turns r rec h over =
      ground (arith, answer_after_terminal now id (meanwhile r) rec h)

module _ (c : Codec) (law : IsRoundTrip c) where
  -- A task that is terminal on disk is answered at once with its record, success or failure alike,
  -- whatever would have happened during the wait.
  pub wait_handler_terminal :
      (env : Env) (later : ℕ) (id : String) (turns : Turns c) (r : Registry c.Bytes)
      (rec : TaskRecord)
      → WellNamed c r
      → read_disk c id r ≡ healthy rec
      → is_terminal rec.status ≡ true
      → (wait_handler c env later id turns r).0 ≡ info_response rec env.now
  unfolding wait_handler reap_orphans
  wait_handler_terminal env later id turns r rec w h over = ground (
    arith,
    get-healthy c id (reap_all c env (candidates r.tasks) r).1 rec
        (reap_all-Kept c law id rec over env (candidates r.tasks) r (w, h)).1,
  )
