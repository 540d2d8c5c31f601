-- ===== src/Evo.antt =====
-- src/evo: the lineage of commits.
pub mod Lineage
pub mod Optimizer
