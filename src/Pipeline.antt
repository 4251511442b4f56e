-- ===== src/Pipeline.antt =====
-- pipeline: what a synchronisation run does, and in which order.
pub mod SyncPlanner
pub mod SyncPlanning
pub mod PendingPublications
