-- ===== src/Runner.antt =====
-- src/runner: the session's loop and what it uses.
pub mod Detector
pub mod Session
pub mod Steps
pub mod Loop
