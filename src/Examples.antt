-- ===== src/Examples.antt =====
-- Small runs of the models, and the theorems at concrete inputs.
pub mod Graph
pub mod Runners
pub mod Status
pub mod Versions
pub mod Managers
pub mod Reruns
pub mod Blocks
pub mod InOrder
pub mod Workers
pub mod Fetching
pub mod Programs
pub mod Joining
