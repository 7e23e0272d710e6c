-- ===== src/LinkedCells.antt =====
-- src/autopas/containers/linkedCells/traversals: what the traversals of linked cells do with the
-- base cells that their colouring visits.
pub mod BaseStep
