-- ===== src/Examples/Shells.antt =====
-- Runs of the theorems about shell commands, and commands that the policy lets through.
use anser.Prelude.{All, ◌≡◌, ◌≢◌, refl, inl, inr, false, List, [], ◌∷◌, Bool, String}
use Prim.{tt}
use anser.Prelude.Text.{text_key, Text, codes, strip_prefix, trim}
use anser.Tools.Edits.{contains}
use anser.Tools.Paths.{contains_char}
use anser.Tools.Shell.Words.{tokenize}
use anser.Tools.Shell.Words.Quoting.{IsQuotable, print, tokenize-print}
use anser.Tools.Shell.Policy.{
  default_cwd, allowed, panics, validate, pattern_level_block, is_flag, command_name,
  analyze_command, is_env_assignment, split_eq, shell_wrapper,
}
use anser.Tools.Shell.Roots.{is_protected_root}
use anser.Tools.Shell.Operands.{to_ascii_lowercase, one_of, normalize_operand}
use anser.Tools.Shell.Policy.Unwraps.{analyze_command-unwrap}
use anser.Tools.Shell.Policy.Blocks.{validate_refuses}

abbrev no_match : String → Text → Bool
no_match pattern text = false

-- Only one ampersand.
single_ampersand : validate no_match (codes "true & rm -rf /") ≡ allowed
unfolding validate text_key trim contains tokenize command_name one_of strip_prefix shell_wrapper
single_ampersand = refl

-- A flag of the command that runs another.
flagged_prefix : validate no_match (codes "sudo -n rm -rf /") ≡ allowed
unfolding validate text_key trim contains tokenize command_name one_of strip_prefix shell_wrapper
flagged_prefix = refl

-- Two wildcards, where one is cut.
two_wildcards : validate no_match (codes "rm -rf /**") ≡ allowed
unfolding validate text_key trim contains tokenize command_name one_of strip_prefix shell_wrapper
    normalize_operand is_protected_root is_flag
two_wildcards = refl

-- A directory of one letter is read as a drive.
drive_letter : validate no_match (codes "rm -rf /a/../*") ≡ allowed
unfolding validate text_key trim contains tokenize command_name one_of strip_prefix shell_wrapper
    normalize_operand is_protected_root is_flag
drive_letter = refl

-- The slice of two bytes ends inside of the second character.
sliced_name : validate no_match (codes "rm /dev/a€") ≡ panics
unfolding validate text_key trim contains tokenize command_name one_of strip_prefix shell_wrapper
    normalize_operand is_protected_root is_flag
sliced_name = refl

abbrev deletion : List Text
deletion = codes "sudo" ∷ codes "/bin/rm" ∷ codes "-rf" ∷ codes "/home/./x/.." ∷ []

quotable : All IsQuotable deletion
unfolding contains_char
quotable = (
  record { filled = λ e. cc; unquoted = refl },
  (
    record { filled = λ e. cc; unquoted = refl },
    (
      record { filled = λ e. cc; unquoted = refl },
      (record { filled = λ e. cc; unquoted = refl }, tt),
    ),
  ),
)

tokenize-print_example : tokenize (print deletion) ≡ deletion
tokenize-print_example = tokenize-print deletion quotable

validate_refuses_example : validate no_match (print deletion) ≢ allowed
unfolding one_of command_name text_key is_env_assignment is_flag split_eq is_protected_root
    normalize_operand strip_prefix
validate_refuses_example =
    validate_refuses {before = codes "sudo" ∷ []} {token = codes "/bin/rm"}
      {target = codes "/home/./x/.."} {args = codes "-rf" ∷ codes "/home/./x/.." ∷ []}
      (record {
        quotable = quotable;
        prefixes = (refl, tt);
        deletes = refl;
        no_assignment = refl;
        listed = inr (inl refl);
        protected = record { no_flag = refl; no_value = refl; at_root = refl };
      })
      no_match

abbrev shell_words : List Text
shell_words = codes "env" ∷ codes "/bin/Bash" ∷ codes "-C" ∷ codes "rm -rf /" ∷ []

analyze_command-unwrap_example :
    analyze_command no_match 4 default_cwd (print shell_words)
    ≡ analyze_command no_match 3 default_cwd (codes "rm -rf /")
unfolding one_of command_name text_key is_env_assignment shell_wrapper to_ascii_lowercase
    contains_char pattern_level_block
analyze_command-unwrap_example =
    analyze_command-unwrap {before = codes "env" ∷ []} {shell = codes "/bin/Bash"}
      {flag = codes "-c"} {given = codes "-C"} {cmd = codes "rm -rf /"} {args = []}
      (record {
        quotable = (
          record { filled = λ e. cc; unquoted = refl },
          (
            record { filled = λ e. cc; unquoted = refl },
            (
              record { filled = λ e. cc; unquoted = refl },
              (record { filled = λ e. cc; unquoted = refl }, tt),
            ),
          ),
        );
        prefixes = (refl, tt);
        no_prefix = refl;
        no_assignment = refl;
        wraps = refl;
        flagged = refl;
      })
      no_match 3 default_cwd refl
