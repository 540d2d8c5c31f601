-- ===== src/Pruner/Plans.antt =====
-- What `plan_sessions` of src/pruner.rs deletes, and what it leaves.
use anser.Prelude.{
  ℕ, ◌+◌, ◌-◌, ◌*◌, ◌≤◌, ◌<◌, ◌≡◌, ◌⊎◌, inl, inr, ◌↔◌, String, true, false, List, [], ◌∷◌,
  string_key, leb, ltb, length, min, arith, Bool-cases, Listed, keep_if, Listed-keep_if,
}
use anser.Pruner.{
  PrunePolicy, SessionEntry, StateDir, contains, gate_age, gate_count, total_size, selected,
  directories, candidates, to_prune, plan_sessions, session_has_terminal_event,
  active_task_session_ids, is_candidate, classify, insert_sorted, sort_by_mtime,
}
use mathlib.Core.Path.{subst}
use anser.Pruner.Gates.{
  length-selected, Within, Within-add, contains-add, Within-gate_count, Within-gate_size,
  gate_count-selected, gate_size-Reduced,
}

-- The sessions that may be deleted: directories with a terminal event that no unfinished task names.
abbrev pub Prunable : StateDir → SessionEntry → Type 0
Prunable d s =
    Listed s d.sessions
    × (s.is_dir ≡ true)
    × (session_has_terminal_event s ≡ true)
    × (contains (active_task_session_ids d.tasks) s.id ≡ false)

gate_age-first :
    (now max_age : ℕ) (t : SessionEntry)
    → max_age < now - t.mtime
    → (ss : List SessionEntry) (set : List String)
    → gate_age now max_age (t ∷ ss) set ≡ gate_age now max_age ss (t.id ∷ set)
unfolding gate_age
gate_age-first now max_age t old ss set = ground (arith, old)

exchange : {P Q R S : Type 0} → S ↔ (P ⊎ R) → (Q ⊎ S) ↔ (P ⊎ (Q ⊎ R))
exchange {P} {Q} {R} {S} (to, from) = (into, out)
  where
    into : Q ⊎ S → P ⊎ (Q ⊎ R)
    into (inl q) = inr (inl q)
    into (inr s) = elim (to s) [ inl p ↦ inl p | inr r ↦ inr (inr r) ]

    out : P ⊎ (Q ⊎ R) → Q ⊎ S
    out (inl p) = inr (from (inl p))
    out (inr (inl q)) = inl q
    out (inr (inr r)) = inr (from (inr r))

-- Sorting keeps the members.
Listed-insert_sorted :
    (s t : SessionEntry) (ts : List SessionEntry)
    → Listed s (insert_sorted t ts) ↔ ((s ≡ t) ⊎ Listed s ts)
unfolding insert_sorted
Listed-insert_sorted s t [] = (λ h. h, λ h. h)
Listed-insert_sorted s t (u ∷ ts) = elim (Bool-cases (leb t.mtime u.mtime)) [
  | inl e ↦ rw e (λ h. h, λ h. h)
  | inr e ↦ rw e (exchange (Listed-insert_sorted s t ts))
]

under : {P R S : Type 0} → R ↔ S → (P ⊎ R) ↔ (P ⊎ S)
under {P} {R} {S} (to, from) = (into, out)
  where
    into : P ⊎ R → P ⊎ S
    into (inl p) = inl p
    into (inr r) = inr (to r)

    out : P ⊎ S → P ⊎ R
    out (inl p) = inl p
    out (inr s) = inr (from s)

Listed-sort_by_mtime :
    (s : SessionEntry) (ss : List SessionEntry) → Listed s (sort_by_mtime ss) ↔ Listed s ss
unfolding sort_by_mtime
Listed-sort_by_mtime s [] = (λ h. h, λ h. h)
Listed-sort_by_mtime s (t ∷ ss) =
    let (to, from) = Listed-insert_sorted s t (sort_by_mtime ss) in
    let (into, out) = under {P = s ≡ t} (Listed-sort_by_mtime s ss) in
    (λ h. into (to h), λ h. from (out h))

is_candidate_iff :
    (active : List String) (s : SessionEntry)
    → (is_candidate active s ≡ true)
      ↔ ((session_has_terminal_event s ≡ true) × (contains active s.id ≡ false))
unfolding is_candidate
is_candidate_iff active s = ground arith

Listed-candidates : (d : StateDir) (s : SessionEntry) → Listed s (candidates d) ↔ Prunable d s
unfolding candidates classify directories
Listed-candidates d s =
    let active = active_task_session_ids d.tasks in
    let (to, from) =
      Listed-sort_by_mtime s (keep_if (is_candidate active) (keep_if (λ t. t.is_dir) d.sessions)) in
    let (to', from') =
      Listed-keep_if (is_candidate active) s (keep_if (λ t. t.is_dir) d.sessions) in
    let (to'', from'') = Listed-keep_if (λ t. t.is_dir) s d.sessions in
    let (sure, back) = is_candidate_iff active s in
    (
      λ h.
          let (held, passes) = to' (to h) in
          let (listed, dir) = to'' held in
          let (ended, free) = sure passes in (listed, dir, ended, free),
      λ (listed, dir, ended, free). from (from' (from'' (listed, dir), back (ended, free))),
    )

Within-gate_age :
    (now max_age : ℕ) (ss : List SessionEntry) (set : List String)
    → Within set (gate_age now max_age ss set)
unfolding gate_age
Within-gate_age now max_age [] set id h = h
Within-gate_age now max_age (s ∷ ss) set id h = elim (Bool-cases (ltb max_age (now - s.mtime))) [
  | inl e ↦ rw e (Within-gate_age now max_age ss (s.id ∷ set) id (Within-add set s.id id h))
  | inr e ↦ rw e (Within-gate_age now max_age ss set id h)
]

gate_age-Listed :
    (now max_age : ℕ) (s : SessionEntry) (ss : List SessionEntry) (set : List String)
    → Listed s ss
    → max_age < now - s.mtime
    → contains (gate_age now max_age ss set) s.id ≡ true
unfolding gate_age
gate_age-Listed now max_age s [] set m old = elim m [ ]
gate_age-Listed now max_age s (t ∷ ss) set (inr m) old = gate_age-Listed now max_age s ss _ m old
gate_age-Listed now max_age s (t ∷ ss) set (inl at) old =
    rw (at, gate_age-first now max_age t (subst (λ u. max_age < now - u.mtime) at old) ss set)
      (Within-gate_age now max_age ss (t.id ∷ set) t.id (contains-add set t.id))

module _ (policy : PrunePolicy) (now : ℕ) (d : StateDir) where
  abbrev aged : List String
  aged = gate_age now policy.max_age_ms (candidates d) []

  abbrev counted : List String
  counted = gate_count (length (directories d.sessions) - policy.max_count) (candidates d) aged

  counted-to_prune : Within counted (to_prune policy now d)
  unfolding to_prune
  counted-to_prune = Within-gate_size _ _ (candidates d) counted

  -- Only directories of sessions that have ended and that no unfinished task names are planned.
  pub plan_sessions-Prunable :
      (s : SessionEntry) → Listed s (plan_sessions policy now d) → Prunable d s
  unfolding plan_sessions selected
  plan_sessions-Prunable s h =
      (Listed-candidates d s).0
        ((Listed-keep_if (λ t. contains (to_prune policy now d) t.id) s (candidates d)).0 h).0

  -- Each session that may be deleted and is older than the retention age is planned.
  pub plan_sessions_old :
      (s : SessionEntry)
      → Prunable d s
      → policy.max_age_ms < now - s.mtime
      → Listed s (plan_sessions policy now d)
  unfolding plan_sessions selected
  plan_sessions_old s h old =
      let listed = (Listed-candidates d s).1 h in
      let age = gate_age-Listed now policy.max_age_ms s (candidates d) [] listed old in
      let count =
        Within-gate_count (length (directories d.sessions) - policy.max_count) (candidates d) aged
          s.id age in
      (Listed-keep_if (λ t. contains (to_prune policy now d) t.id) s (candidates d)).1
        (listed, counted-to_prune s.id count)

  -- The count gate does not discount what the age gate has selected: the plan holds at least the
  -- excess over the maximal count and the aged sessions on top, as far as there are candidates.
  pub plan_sessions_count :
      min
        (length (directories d.sessions) - policy.max_count + length (selected aged (candidates d)))
        (length (candidates d))
      ≤ length (plan_sessions policy now d)
  unfolding plan_sessions
  plan_sessions_count = omega (
    arith,
    gate_count-selected (length (directories d.sessions) - policy.max_count) (candidates d) aged,
    length-selected counted (to_prune policy now d) (candidates d) counted-to_prune,
  )

  -- After the plan the sessions that stay have at most the maximal size, or every candidate is planned.
  pub plan_sessions_size :
      (length (candidates d) ≤ length (plan_sessions policy now d))
      ⊎ (total_size (directories d.sessions)
          ≤ policy.max_size_mb * 1024 * 1024 + total_size (plan_sessions policy now d))
  unfolding plan_sessions to_prune
  plan_sessions_size =
      let max_bytes = policy.max_size_mb * 1024 * 1024 in
      elim (gate_size-Reduced max_bytes (total_size (directories d.sessions)) (candidates d)
        counted) [ inl all ↦ inl all | inr low ↦ inr (omega (arith, low)) ]
