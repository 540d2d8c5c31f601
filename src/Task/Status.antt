-- ===== src/Task/Status.antt =====
-- src/task/wait.rs: the handlers of the status server.
pub mod Laws
use anser.Prelude.{
  ℕ, ◌-◌, ◌/◌, String, ◌<>◌, Bool, true, false, Option, none, some, List, [], ◌∷◌, if◌then◌else◌,
}
use anser.Task.Records.{
  Codec, TaskRecord, TaskStatus, queued, executing, completed, failed, cancelled, is_terminal, Env,
  Registry, DiskRead, absent, corrupt, healthy, subscribe_terminal,
}
use anser.Task.Registry.{read_disk, get, reap_orphans}

-- The members of the JSON body that describes a task.
pub record Info : Type 0 where
  pub id : String
  pub status : TaskStatus
  pub reason : Option String
  pub session_id : String
  pub cwd : String
  pub elapsed_s : ℕ
  pub created_at : ℕ
  pub started_at : Option ℕ
  pub ended_at : Option ℕ
  pub turns_budget : ℕ

pub data Body : Type 0 where
  found : Info → Body
  error : (message : String) → Body
  timed_out : Body

pub record Response : Type 0 where
  pub code : ℕ
  pub body : Body

abbrev pub or_else : Option ℕ → ℕ → ℕ
or_else none d = d
or_else (some n) d = n

abbrev pub start_of : TaskStatus → TaskRecord → ℕ
start_of executing rec = or_else rec.started_at rec.created_at
start_of _ rec = rec.created_at

unfoldable pub elapsed_seconds : TaskRecord → ℕ → ℕ
elapsed_seconds rec now = (or_else rec.ended_at now - start_of rec.status rec) / 1000

-- `terminal_response` and `status_response`, which build the same body.
unfoldable pub info_response : TaskRecord → ℕ → Response
info_response rec now = record {
  code = 200;
  body = found (record {
    id = rec.id;
    status = rec.status;
    reason = rec.reason;
    session_id = rec.session_id;
    cwd = rec.cwd;
    elapsed_s = elapsed_seconds rec now;
    created_at = rec.created_at;
    started_at = rec.started_at;
    ended_at = rec.ended_at;
    turns_budget = rec.turns_budget;
  });
}

abbrev pub not_found_response : Response
not_found_response = record { code = 404; body = error "task not found" }

abbrev pub malformed_response : String → Response
malformed_response message = record {
  code = 400;
  body = error ("malformed task file: " <> message);
}

abbrev pub timeout_response : Response
timeout_response = record { code = 200; body = timed_out }

-- One turn of the waiting loop: what changes in the registry meanwhile, and whether the broadcast or
-- the poll interval ends the turn.
pub data Turn : Type 0 where
  woken polled : Turn

abbrev pub terminal? : Option TaskRecord → Bool
terminal? none = false
terminal? (some rec) = is_terminal rec.status

abbrev pub terminal_on_disk : DiskRead → Bool
terminal_on_disk absent = false
terminal_on_disk (corrupt _) = false
terminal_on_disk (healthy rec) = is_terminal rec.status

module _ (c : Codec) where
  abbrev pub Turns : Type 0
  Turns = List ((Registry c.Bytes → Registry c.Bytes) × Turn)

  -- The turns that there is time for; the loop returns early when it sees a terminal record.
  unfoldable pub wait_for_terminal : String → Turns → Registry c.Bytes → Registry c.Bytes
  wait_for_terminal id [] r = r
  wait_for_terminal id ((meanwhile, woken) ∷ turns) r =
      let (rec, r') = get c id (meanwhile r) in
      let rest = wait_for_terminal id turns r' in if terminal? rec then r' else rest
  wait_for_terminal id ((meanwhile, polled) ∷ turns) r =
      let r' = meanwhile r in
      let rest = wait_for_terminal id turns r' in
      if terminal_on_disk (read_disk c id r') then r' else rest

  -- What both handlers answer to a task that is neither in memory nor readable on disk.
  unfoldable pub status_handler : Env → String → Registry c.Bytes → Response × Registry c.Bytes
  status_handler env id r0 =
      let (_, r1) = reap_orphans c env r0 in
      let (rec, r) = get c id r1 in
      elim rec [
        | some rec ↦ (info_response rec env.now, r)
        | none ↦ elim (read_disk c id r) [
          | healthy rec ↦ (info_response rec env.now, r)
          | absent ↦ (not_found_response, r)
          | corrupt message ↦ (malformed_response message, r)
        ]
      ]

  -- The end of `wait_handler`, after the wait; `now` is the time then.
  unfoldable pub answer_after : ℕ → String → Registry c.Bytes → Response × Registry c.Bytes
  answer_after now id r0 =
      let (rec, r) = get c id r0 in
      let disk : Response × Registry c.Bytes = elim (read_disk c id r) [
        | healthy rec ↦
            if is_terminal rec.status then (info_response rec now, r) else (timeout_response, r)
        | absent ↦ (timeout_response, r)
        | corrupt message ↦ (timeout_response, r)
      ] in
      elim rec [
        | none ↦ disk
        | some rec ↦ if is_terminal rec.status then (info_response rec now, r) else disk
      ]

  unfoldable pub wait_and_answer :
      ℕ → String → Turns → Registry c.Bytes → Response × Registry c.Bytes
  wait_and_answer later id turns r =
      answer_after later id (wait_for_terminal id turns (subscribe_terminal id r))

  unfoldable pub wait_handler :
      Env → ℕ → String → Turns → Registry c.Bytes → Response × Registry c.Bytes
  wait_handler env later id turns r0 =
      let (_, r1) = reap_orphans c env r0 in
      let (rec, r) = get c id r1 in
      elim rec [
        | some rec ↦
            if is_terminal rec.status
            then (info_response rec env.now, r)
            else wait_and_answer later id turns r
        | none ↦ elim (read_disk c id r) [
          | healthy rec ↦
              if is_terminal rec.status
              then (info_response rec env.now, r)
              else wait_and_answer later id turns r
          | absent ↦ (not_found_response, r)
          | corrupt message ↦ (malformed_response message, r)
        ]
      ]
