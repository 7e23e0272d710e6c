-- ===== src/Rules.antt =====
-- src/autopas/selectors/tuningStrategy/ruleBasedTuning: rule programs, their code generation, the virtual
-- machine that runs them, and the tuning strategy that uses them.
pub mod Vm
pub mod Execute
pub mod Patterns
pub mod Syntax
pub mod Generate
pub mod Types
pub mod Meaning
pub mod Compile
pub mod Correct
pub mod Tuning
