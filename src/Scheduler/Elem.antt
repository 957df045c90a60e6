-- ===== src/Scheduler/Elem.antt =====
-- What the managers of core/scheduler share: scheduler_elem.hpp and collection_view.hpp, the messages of
-- control.hpp and scheduler_elem.cpp, and the closures that one manager hands to another.
-- A sent message is an `Effect`; a closure is a `Callback`, whose call is an effect too. A URL is kept as
-- the parts that the code joins into one text.
use tangram.Base.{ℕ, ◌+◌, ◌-◌, Bool, Option, some, List, Map, leb, if◌then◌else◌, check, not, ◌>>◌}
use tangram.Plan.Spec.{SpecWrapper, Url}

-- `nodes` are the keys of `elem_->nodes`; `collection_map` gives `part_to_node` of each collection,
-- whose length is also `num_partition`.
pub record SchedulerElem : Type 0 where
  pub nodes : List ℕ
  pub collection_map : Map (List ℕ)

pub data Flag : Type 0 where
  setup map join finish finish_migrate finish_cp : Flag

pub record ControllerMsg : Type 0 where
  pub flag : Flag
  pub version : ℕ
  pub node_id : ℕ
  pub plan_id : ℕ
  pub part_id : ℕ

pub record MigrateMeta : Type 0 where
  pub plan_id : ℕ
  pub collection_id : ℕ
  pub partition_id : ℕ
  pub from_id : ℕ
  pub to_id : ℕ
  pub num_nodes : ℕ

-- One entry of a migration: from_id, to_id, part_id.
abbrev pub Move : Type 0
Move = ℕ × ℕ × ℕ

-- What the scheduler sends to the controllers of a plan, with its content.
pub data ControlCommand : Type 0 where
  setup : SpecWrapper → ControlCommand
  start : ControlCommand
  update_version : ℕ → ControlCommand
  terminate_plan : ControlCommand
  start_migrate : MigrateMeta → List ℕ → ControlCommand
  start_migrate_map_only : MigrateMeta → List ℕ → ControlCommand
  finish_load_with : Move → ControlCommand
  reassign_map : List Move → ControlCommand

pub data WorkerCommand : Type 0 where
  update_collection : (collection_id : ℕ) → List ℕ → WorkerCommand
  load_checkpoint : (cid part_id : ℕ) → Url → WorkerCommand
  checkpoint : (cid part_id : ℕ) → Url → WorkerCommand
  write_partition : (cid part_id : ℕ) → Url → WorkerCommand
  distribute : (part_id plan_id collection_id : ℕ) → WorkerCommand
  load_block : (id block collection_id : ℕ) → WorkerCommand
  exit : WorkerCommand

pub data Callback : Type 0 where
  -- `ToScheduler(kFinishPlan, id)`.
  plan_done : ℕ → Callback
  -- CheckpointManager::LoadCheckpoint.
  checkpoint_loaded : (cid : ℕ) → Callback
  -- RecoverManager::Recover.
  recover_loaded : (cid : ℕ) → Callback
  recover_updated : (cid : ℕ) → Callback
  -- Scheduler::Recovery.
  plan_aborted : (dead_nodes : List ℕ) → Callback
  reads_recovered : (plan_id : ℕ) → (reads : List (ℕ × Url)) → Callback
  all_recovered : Callback
  -- ControlManager::PreBatchMigrate.
  with_loaded : (plan_id : ℕ) → List Move → (with_collection_id : ℕ) → Callback
  with_updated : (plan_id : ℕ) → List Move → Callback

-- `to_all_controllers` and `to_all_workers` go to the nodes of the state at that time.
pub data Effect : Type 0 where
  to_all_controllers : (plan_id : ℕ) → ControlCommand → Effect
  to_controller : (node_id plan_id : ℕ) → ControlCommand → Effect
  to_all_workers : WorkerCommand → Effect
  to_worker : (node_id : ℕ) → WorkerCommand → Effect
  finish_plan : (plan_id : ℕ) → Effect
  call : Callback → Effect
  load_checkpoint_partial : (cid : ℕ) → Url → List ℕ → Callback → Effect

abbrev pub recover_magic : ℕ
recover_magic = 10000

unfoldable pub is_recover_plan : ℕ → Bool
is_recover_plan id = leb recover_magic id

unfoldable pub get_recover_plan_id : ℕ → Option ℕ
unfolding is_recover_plan
get_recover_plan_id id = do check (not (is_recover_plan id)); some (id + recover_magic)

unfoldable pub get_real_id : ℕ → ℕ
unfolding is_recover_plan
get_real_id id = if is_recover_plan id then id - recover_magic else id
