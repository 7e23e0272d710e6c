-- ===== src/Octree.antt =====
-- src/autopas/containers/octree: the octree container.
pub mod Direction
