-- ===== src/Tools/Shell/Policy/Unwraps.antt =====
-- src/tools/shell.rs: commands that a shell is given are analysed in their own right.
use anser.Prelude.{ℕ, suc, ◌≡◌, refl, Bool, true, false, none, some, List, ◌∷◌, ◌++◌, All, String}
use anser.Prelude.Text.{Text, text_key, text_eqb_iff}
use anser.Tools.Shell.Words.Quoting.{IsQuotable, print, tokenize-print, split_segments-words}
use anser.Tools.Shell.Operands.{one_of, to_ascii_lowercase}
use anser.Tools.Shell.Policy.{
  Verdict, allowed, panics, refused, and_also, transparent, command_name, is_env_assignment,
  shell_wrapper, inner_command, check_command, analyze_segment, analyze_segments, analyze_with,
  analyze_command, pattern_level_block,
}
use anser.Tools.Shell.Policy.Blocks.{skip_prefix-command, never_empty}

and_also_allowed : (v : Verdict) → and_also v allowed ≡ v
unfolding and_also
and_also_allowed allowed = refl
and_also_allowed panics = refl
and_also_allowed (refused error) = refl

-- A shell that is given a command as one word.
pub record RunsShell (before : List Text) (shell flag given cmd : Text) (args : List Text)
    : Type 0 where
  pub quotable : All IsQuotable (before ++ shell ∷ given ∷ cmd ∷ args)
  pub prefixes : All (λ t. one_of (command_name t) transparent ≡ true) before
  pub no_prefix : one_of (command_name shell) transparent ≡ false
  pub no_assignment : is_env_assignment shell ≡ false
  pub wraps : shell_wrapper (command_name shell) ≡ some (flag, false)
  pub flagged : to_ascii_lowercase given ≡ flag

module _ {before : List Text} {shell flag given cmd : Text} {args : List Text}
    (h : RunsShell before shell flag given cmd args) where
  inner_command-given : inner_command flag false (given ∷ cmd ∷ args) ≡ some cmd
  unfolding inner_command text_key
  inner_command-given = rw ((text_eqb_iff (to_ascii_lowercase given) flag).1 h.flagged) refl

  analyze_segment-unwrap :
      (analyze : Text → Verdict) (cwd : Text)
      → analyze_segment (some analyze) cwd (print (before ++ shell ∷ given ∷ cmd ∷ args))
        ≡ analyze cmd
  unfolding analyze_segment
  analyze_segment-unwrap analyze cwd =
      rw
        (
          tokenize-print (before ++ shell ∷ given ∷ cmd ∷ args) h.quotable,
          skip_prefix-command false before shell (given ∷ cmd ∷ args) h.prefixes h.no_prefix
              h.no_assignment,
          h.wraps,
          inner_command-given,
          check_command,
        )
        refl

  module _ (is_match : String → Text → Bool) where
    -- While levels are left, a command that a shell is given as one quoted word is judged as it
    -- would be on its own, one level below, behind whatever of sudo and its like, and whatever words
    -- follow it, where no pattern matches the whole.
    pub analyze_command-unwrap :
        (levels : ℕ) (cwd : Text)
        → pattern_level_block is_match (print (before ++ shell ∷ given ∷ cmd ∷ args)) ≡ none
        → analyze_command is_match (suc levels) cwd (print (before ++ shell ∷ given ∷ cmd ∷ args))
          ≡ analyze_command is_match levels cwd cmd
    unfolding analyze_command analyze_with analyze_segments
    analyze_command-unwrap levels cwd no_match =
        rw
          (
            no_match,
            split_segments-words (before ++ shell ∷ given ∷ cmd ∷ args)
                (never_empty before shell (given ∷ cmd ∷ args)) h.quotable,
            analyze_segment-unwrap (λ inner. analyze_command is_match levels cwd inner) cwd,
            analyze_with,
          )
          (and_also_allowed (analyze_command is_match levels cwd cmd))
