-- ===== src/Tools/Shell/Policy/Blocks.antt =====
-- src/tools/shell.rs: what validate refuses.
use anser.Prelude.{
  ◌≡◌, ◌≢◌, refl, ap, sym, ◌∙◌, ◌⊎◌, inl, inr, Bool, true, false, ◌||◌, ◌&&◌, not, Option, none,
  some, List, [], ◌∷◌, ◌++◌, All, Listed, Bool-cases, Option-cases, ◌==◌, String,
}
use anser.Prelude.Text.{Text, codes, text_key, text_eqb, text_eqb_iff, trim, is_some}
use anser.Tools.Edits.{contains}
use mathlib.Core.Path.{subst}
use Prim.{tt}
use anser.Tools.Shell.Words.{push_word, split_segments}
use anser.Tools.Shell.Words.Quoting.{IsQuotable, print, tokenize-print, split_segments-words}
use anser.Tools.Shell.Operands.{one_of, normalize_operand}
use anser.Tools.Shell.Roots.{is_protected_root}
use anser.Tools.Shell.Policy.{
  Verdict, allowed, panics, refused, and_also, destructive, transparent, command_name, is_flag,
  is_env_assignment, has_unexpanded_ref, skip_prefix, shell_wrapper, split_eq, given_value,
  operands, push_operand, check_operand, check_operands, check_command, analyze_segment,
  analyze_segments, analyze_with, analyze_command, validate, default_cwd,
  canary_disaster_fuse_token, pattern_level_block,
}

-- What holds of each member of a list holds of what `one_of` finds.
one_of_all :
    (p : Text → Bool) (t : Text) (ts : List Text)
    → All (λ u. p u ≡ true) ts
    → one_of t ts ≡ true
    → p t ≡ true
unfolding one_of text_key
one_of_all p t [] h found = absurd (cc)
one_of_all p t (u ∷ us) (h, hs) found = elim (Bool-cases (text_eqb t u)) [
  | inl same ↦ ap p ((text_eqb_iff t u).0 same) ∙ h
  | inr other ↦ one_of_all p t us hs (sym (ap (λ b. b || one_of t us) other) ∙ found)
]

neither : (a b : Bool) → a || b ≡ false → (a ≡ false) × (b ≡ false)
neither true b h = absurd (cc)
neither false b h = (refl, h)

one_of_none : (t u : Text) (us : List Text) → Listed u us → one_of t us ≡ false → (t == u) ≡ false
unfolding one_of
one_of_none t u [] listed h = elim listed [ ]
one_of_none t u (v ∷ vs) (inl same) h = ap (λ w. t == w) same ∙ (neither (t == v) (one_of t vs) h).0
one_of_none t u (v ∷ vs) (inr later) h =
    one_of_none t u vs later (neither (t == v) (one_of t vs) h).1

-- A deleting command is none that runs another.
unfoldable runs_none : Text → Bool
unfolding one_of shell_wrapper text_key
runs_none name = not (one_of name transparent) && not (is_some (shell_wrapper name))

destructive-runs_none : (name : Text) → one_of name destructive ≡ true → runs_none name ≡ true
unfolding runs_none
destructive-runs_none name h =
    one_of_all runs_none name destructive (refl, (refl, (refl, (refl, (refl, (refl, (refl, tt)))))))
      h

destructive_no_prefix :
    (name : Text) → one_of name destructive ≡ true → one_of name transparent ≡ false
unfolding runs_none
destructive_no_prefix name h = elim (Bool-cases (one_of name transparent)) [
  | inl found ↦ absurd (
      cc
        (destructive-runs_none name h, ap (λ b. not b && not (is_some (shell_wrapper name))) found))
  | inr absent ↦ absent
]

bare : (name : Text) → true ≡ (not (one_of name transparent) && false) → ⊥
bare name h = elim (Bool-cases (one_of name transparent)) [
  | inl found ↦ cc (h, ap (λ b. not b && false) found)
  | inr absent ↦ cc (h, ap (λ b. not b && false) absent)
]

destructive_no_wrapper : (name : Text) → one_of name destructive ≡ true → shell_wrapper name ≡ none
unfolding runs_none
destructive_no_wrapper name h = elim (Option-cases (shell_wrapper name)) [
  | inl absent ↦ absent
  | inr (w, found) ↦ absurd (
      bare name (
        sym (destructive-runs_none name h)
        ∙ ap (λ o. not (one_of name transparent) && not (is_some o)) found))
]

and_also_refused : (v w : Verdict) → (v ≢ allowed) ⊎ (w ≢ allowed) → and_also v w ≢ allowed
unfolding and_also
and_also_refused allowed w (inl bad) = absurd (bad refl)
and_also_refused allowed w (inr bad) = bad
and_also_refused panics w h = λ e. cc
and_also_refused (refused error) w h = λ e. cc

-- An operand that names a protected root.
pub record IsProtected (name target : Text) : Type 0 where
  pub no_flag : is_flag target ≡ false
  pub no_value : split_eq target ≡ none
  pub at_root :
      is_protected_root (normalize_operand target default_cwd (not (name == codes "rm")))
      ≡ some true

check_operand_refused :
    (name target : Text)
    → IsProtected name target
    → check_operand default_cwd (not (name == codes "rm")) target ≢ allowed
unfolding check_operand
check_operand_refused name target h = elim (Bool-cases (has_unexpanded_ref target)) [
  | inl found ↦ rw (found) (λ e. cc)
  | inr absent ↦ rw (absent, h.at_root) (λ e. cc)
]

check_operands_refused :
    (name target : Text) (found : List Text)
    → Listed target found
    → IsProtected name target
    → check_operands default_cwd (not (name == codes "rm")) found ≢ allowed
unfolding check_operands
check_operands_refused name target [] listed h = elim listed [ ]
check_operands_refused name target (tok ∷ toks) (inl same) h =
    and_also_refused (check_operand default_cwd (not (name == codes "rm")) tok)
      (check_operands default_cwd (not (name == codes "rm")) toks)
      (inl (λ e.
        check_operand_refused name target h
          (ap (check_operand default_cwd (not (name == codes "rm"))) same ∙ e)))
check_operands_refused name target (tok ∷ toks) (inr later) h =
    and_also_refused (check_operand default_cwd (not (name == codes "rm")) tok)
      (check_operands default_cwd (not (name == codes "rm")) toks)
      (inr (check_operands_refused name target toks later h))

Listed-push_operand :
    (target : Text) (value : Option Text) (tok : Text) (rest : List Text)
    → Listed target rest
    → Listed target (push_operand value tok rest)
unfolding push_operand push_word
Listed-push_operand target (some []) tok rest h = h
Listed-push_operand target (some (c ∷ value)) tok rest h = inr h
Listed-push_operand target none tok rest h = elim (Bool-cases (is_flag tok)) [
  | inl flag ↦ rw flag h
  | inr word ↦ rw word (inr h)
]

Listed-operands :
    (name target : Text) (args : List Text)
    → IsProtected name target
    → Listed target args
    → Listed target (operands args)
unfolding operands given_value push_operand
Listed-operands name target [] h listed = elim listed [ ]
Listed-operands name target (tok ∷ toks) h (inl same) =
    subst (λ t. Listed target (push_operand (given_value t (split_eq t)) t (operands toks))) same
      (rw (h.no_value, h.no_flag) (inl refl))
Listed-operands name target (tok ∷ toks) h (inr later) =
    Listed-push_operand target (given_value tok (split_eq tok)) tok (operands toks)
      (Listed-operands name target toks h later)

-- What runs the rest of its line is skipped, up to a command that does not.
pub skip_prefix-command :
    (after_env : Bool) (before : List Text) (token : Text) (args : List Text)
    → All (λ t. one_of (command_name t) transparent ≡ true) before
    → one_of (command_name token) transparent ≡ false
    → is_env_assignment token ≡ false
    → skip_prefix after_env (before ++ token ∷ args) ≡ token ∷ args
unfolding skip_prefix
skip_prefix-command true [] token args h command plain_name =
    rw
      (
        plain_name,
        command,
        one_of_none (command_name token) (codes "env") transparent (inr (inr (inl refl))) command,
      )
      refl
skip_prefix-command false [] token args h command plain_name =
    rw
      (
        command,
        one_of_none (command_name token) (codes "env") transparent (inr (inr (inl refl))) command,
      )
      refl
skip_prefix-command after_env (t ∷ ts) token args (h, hs) command plain_name =
    elim (Bool-cases (after_env && is_env_assignment t)) [
      | inl assigned ↦ rw assigned (skip_prefix-command true ts token args hs command plain_name)
      | inr other ↦ elim (Bool-cases (command_name t == codes "env")) [
        | inl env ↦ rw (other, env) (skip_prefix-command true ts token args hs command plain_name)
        | inr no_env ↦
            rw (other, h, no_env) (skip_prefix-command false ts token args hs command plain_name)
      ]
    ]

pub never_empty :
    (before : List Text) (token : Text) (args : List Text) → before ++ token ∷ args ≢ []
never_empty [] token args = λ e. cc
never_empty (t ∷ ts) token args = λ e. cc

check_command_refused :
    (unwrap : Option (Text → Verdict)) (token target : Text) (args : List Text)
    → one_of (command_name token) destructive ≡ true
    → Listed target args
    → IsProtected (command_name token) target
    → check_command unwrap default_cwd (token ∷ args) ≢ allowed
unfolding check_command
check_command_refused unwrap token target args h listed protected =
    rw (destructive_no_wrapper (command_name token) h, h, check_command)
      (check_operands_refused (command_name token) target (operands args)
        (Listed-operands (command_name token) target args protected listed) protected)

-- A command that deletes a protected root, as its words.
pub record DeletesRoot (before : List Text) (token target : Text) (args : List Text) : Type 0 where
  pub quotable : All IsQuotable (before ++ token ∷ args)
  pub prefixes : All (λ t. one_of (command_name t) transparent ≡ true) before
  pub deletes : one_of (command_name token) destructive ≡ true
  pub no_assignment : is_env_assignment token ≡ false
  pub listed : Listed target args
  pub protected : IsProtected (command_name token) target

module _ {before : List Text} {token target : Text} {args : List Text}
    (h : DeletesRoot before token target args) where
  analyze_segment_refused :
      (unwrap : Option (Text → Verdict))
      → analyze_segment unwrap default_cwd (print (before ++ token ∷ args)) ≢ allowed
  unfolding analyze_segment
  analyze_segment_refused unwrap =
      rw
        (
          tokenize-print (before ++ token ∷ args) h.quotable,
          skip_prefix-command false before token args h.prefixes
              (destructive_no_prefix (command_name token) h.deletes) h.no_assignment,
        )
        (check_command_refused unwrap token target args h.deletes h.listed h.protected)

  one_segment :
      split_segments (print (before ++ token ∷ args)) ≡ print (before ++ token ∷ args) ∷ []
  one_segment =
      split_segments-words (before ++ token ∷ args) (never_empty before token args) h.quotable

  module _ (is_match : String → Text → Bool) where
    analyze_with_refused :
        (unwrap : Option (Text → Verdict))
        → analyze_with is_match unwrap default_cwd (print (before ++ token ∷ args)) ≢ allowed
    unfolding analyze_with analyze_segments
    analyze_with_refused unwrap =
        elim (Option-cases (pattern_level_block is_match (print (before ++ token ∷ args)))) [
          | inr (signature, found) ↦ rw (found, analyze_with) (λ e. cc)
          | inl absent ↦
              rw (absent, one_segment, analyze_with)
                (and_also_refused
                  (analyze_segment unwrap default_cwd (print (before ++ token ∷ args))) allowed
                  (inl (analyze_segment_refused unwrap)))
        ]

    -- validate lets no deleting command of quoted words through that names a protected root as a
    -- word of its own, whatever other words it has and whichever of sudo, doas, env, nice, nohup and
    -- xargs, without flags of their own, stand before it, and whatever the patterns match.
    pub validate_refuses : validate is_match (print (before ++ token ∷ args)) ≢ allowed
    unfolding validate analyze_command
    validate_refuses =
        let words = print (before ++ token ∷ args) in
        elim (Bool-cases (trim words == [])) [
          | inl empty ↦ rw (empty, validate) (λ e. cc)
          | inr filled ↦ elim (Bool-cases (contains words canary_disaster_fuse_token)) [
            | inl canary ↦ rw (filled, canary, validate) (λ e. cc)
            | inr none_there ↦
                rw (filled, none_there, validate)
                  (analyze_with_refused
                    (some (λ inner. analyze_command is_match 3 default_cwd inner)))
          ]
        ]
