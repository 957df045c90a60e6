-- ===== src/Plan.antt =====
-- core/plan: the dependency graph of a program's plans, and the specifications of the plans.
pub mod Dag
pub mod Spec
pub mod Context
