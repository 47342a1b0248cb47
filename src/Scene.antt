-- ===== src/Scene.antt =====
-- Scenes: the networks that a scene reaches, and the runner that plays it.
pub mod Scope
pub mod Canonical
pub mod Collapse
pub mod Renumber
pub mod Consistency
pub mod Runner
pub mod Run
