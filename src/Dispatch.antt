-- ===== src/Dispatch.antt =====
-- Planning what goes on the wire: the offset optimizer, the action planner and the cost estimate.
pub mod Op
pub mod Optimizer
pub mod Action
pub mod Planner
pub mod Cost
