-- ===== src/Tools/Shell.antt =====
-- src/tools/shell.rs: the policy that a shell command passes before it runs.
pub mod Words
pub mod Operands
pub mod Roots
pub mod Policy
