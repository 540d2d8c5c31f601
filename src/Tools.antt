-- ===== src/Tools.antt =====
-- src/tools: the sandbox that every path passes, and the file tools behind it.
pub mod Paths
pub mod Symlinks
pub mod Binary
pub mod Edits
pub mod Files
pub mod Search
pub mod Shell
