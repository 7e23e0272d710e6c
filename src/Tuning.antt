-- ===== src/Tuning.antt =====
-- src/autopas/selectors: the auto tuner, its tuning strategies and the selection of an optimum.
pub mod Optimum
pub mod Strategy
pub mod FullSearch
pub mod Tuner
pub mod SearchSpace
pub mod Pipeline
