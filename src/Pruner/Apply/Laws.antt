-- ===== src/Pruner/Apply/Laws.antt =====
-- What `apply` of src/pruner.rs removes.
use anser.Prelude.{
  ℕ, suc, ◌+◌, ◌≡◌, ◌≢◌, ◌⊎◌, inl, inr, refl, ap, sym, ◌∙◌, String, true, false, Option, none, List,
  [], ◌∷◌, ◌++◌, ◌==◌, string_key, nat_key, length, length-append, arith, ==_self, ==_ne,
  Bool-cases,
}
use mathlib.Core.List.{append-nil, append_assoc}
use anser.Pruner.Apply.{
  PrunePlan, PruneError, not_from_plan, already_applied, Outcome, deleted, refused,
  compute_fingerprint, plan, len, remove_all, mark, paths, apply,
}

done_same :
    (j k : ℕ) (xs ys : List String)
    → j ≡ k
    → xs ≡ ys
    → ◌≡◌ {A = Outcome × List String} (deleted j, xs) (deleted k, ys)
done_same j k xs ys e e' = ap (λ n. (deleted n, xs)) e ∙ ap (λ zs. (deleted k, zs)) e'

remove_all_done :
    (fault : String → Option String) (ps : List String) (n : ℕ) (removed : List String)
    → ((p : String) → fault p ≡ none)
    → remove_all fault ps n removed ≡ (deleted (n + length ps), removed ++ ps)
unfolding remove_all
remove_all_done fault [] n removed works =
    done_same n (n + 0) removed (removed ++ []) (omega arith) (sym (append-nil removed))
remove_all_done fault (p ∷ ps) n removed works =
    rw (works p, remove_all)
      (remove_all_done fault ps (suc n) (removed ++ p ∷ []) works
        ∙ done_same _ _ _ _ (omega arith) (append_assoc removed (p ∷ []) ps))

length_four :
    (a b c d : List String)
    → 0 + length (a ++ b ++ c ++ d) ≡ length a + length b + length c + length d
length_four a b c d =
    omega (arith, length-append (a ++ b ++ c) d, length-append (a ++ b) c, length-append a b)

apply_runs :
    (utf8 : String → List ℕ) (fault : String → Option String) (root : String)
    (layout : List (String × ℕ)) (p : PrunePlan) (removed : List String)
    → p.applied ≡ false
    → (p.state_dir == root) ≡ true
    → (compute_fingerprint utf8 root layout p.sessions p.tasks p.telemetry p.evo == p.fingerprint)
      ≡ true
    → apply utf8 fault root layout p removed ≡ mark p (remove_all fault (paths p) 0 removed)
unfolding apply
apply_runs utf8 fault root layout p removed fresh here same = rw (fresh, here, same)

-- Where no removal fails and the layout has not changed, a plan removes exactly its paths, sessions
-- first, and counts them; a second try with the same plan is refused and removes nothing, whatever
-- the state has become.
pub apply-plan :
    (utf8 : String → List ℕ) (fault : String → Option String) (root : String)
    (layout : List (String × ℕ)) (sessions tasks telemetry evo removed : List String)
    → ((p : String) → fault p ≡ none)
    → let p = plan utf8 root layout sessions tasks telemetry evo in
      let done = record p { applied = true } in
      (apply utf8 fault root layout p removed
        ≡ (deleted (len p), done, removed ++ (sessions ++ tasks ++ telemetry ++ evo)))
      × ((root' : String) (layout' : List (String × ℕ)) (removed' : List String)
          → apply utf8 fault root' layout' done removed'
            ≡ (refused already_applied, done, removed'))
unfolding apply plan len
apply-plan utf8 fault root layout sessions tasks telemetry evo removed works =
    let p = plan utf8 root layout sessions tasks telemetry evo in
    (
      apply_runs utf8 fault root layout p removed refl (==_self root)
            (==_self (compute_fingerprint utf8 root layout sessions tasks telemetry evo))
          ∙ ap (mark p) (remove_all_done fault (paths p) 0 removed works)
          ∙ ap (λ n. (deleted n, record p { applied = true }, removed ++ paths p))
              (length_four sessions tasks telemetry evo),
      λ root' layout' removed'. refl,
    )

-- A plan that was applied, or made for another directory, or whose fingerprint does not match the
-- state, is refused and removes nothing.
pub apply_refused :
    (utf8 : String → List ℕ) (fault : String → Option String) (root : String)
    (layout : List (String × ℕ)) (p : PrunePlan) (removed : List String)
    → (p.applied ≡ true)
      ⊎ ((p.state_dir ≢ root)
          ⊎ (compute_fingerprint utf8 root layout p.sessions p.tasks p.telemetry p.evo
              ≢ p.fingerprint))
    → (e : PruneError) × (apply utf8 fault root layout p removed ≡ (refused e, p, removed))
unfolding apply
apply_refused utf8 fault root layout p removed h = elim (Bool-cases p.applied) [
  | inl applied ↦ (already_applied, rw applied)
  | inr fresh ↦ elim (Bool-cases (p.state_dir == root)) [
    | inr away ↦ (not_from_plan, rw (fresh, away))
    | inl here ↦ (not_from_plan, rw (fresh, here, drifted fresh here h))
  ]
]
  where
    drifted :
        p.applied ≡ false
        → (p.state_dir == root) ≡ true
        → (p.applied ≡ true)
          ⊎ ((p.state_dir ≢ root)
              ⊎ (compute_fingerprint utf8 root layout p.sessions p.tasks p.telemetry p.evo
                  ≢ p.fingerprint))
        → (compute_fingerprint utf8 root layout p.sessions p.tasks p.telemetry p.evo
            == p.fingerprint)
          ≡ false
    drifted fresh here (inl applied) = absurd (ground (arith, fresh, applied))
    drifted fresh here (inr (inl away)) = absurd (ground (arith, ==_ne p.state_dir root away, here))
    drifted fresh here (inr (inr differs)) = ==_ne _ p.fingerprint differs
