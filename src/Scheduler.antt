-- ===== src/Scheduler.antt =====
-- core/scheduler: which plan runs next, what the running plans hold, and how far they are.
pub mod DagRunner
pub mod CollectionStatus
pub mod Elem
pub mod Replies
pub mod Tracker
pub mod ControlManager
pub mod CollectionManager
pub mod CheckpointLoader
pub mod WriteManager
pub mod CheckpointManager
pub mod RecoverManager
pub mod DistributeManager
pub mod BlockManager
pub mod Process
