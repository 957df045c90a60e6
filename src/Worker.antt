-- ===== src/Worker.antt =====
-- core/worker, and what of core/partition and core/map_output it keeps: a node's part in the map-update plans.
pub mod Elem
pub mod Partitions
pub mod StreamStore
pub mod PlanController
pub mod Fetcher
pub mod MapOutput
pub mod RangeMapper
pub mod Commands
pub mod IndexedSeqPartition
pub mod DelayedCombiner
