-- ===== src/Scheduler/Process/Dispatch.antt =====
-- `Process` and `RegisterProgram` of core/scheduler/scheduler.cpp: the messages that the scheduler receives. The numbers of threads that the
-- workers report are left out, and so is `kDummy`, which the scheduler only sends.
use tangram.Base.{
  ℕ, ◌+◌, Bool, true, Option, some, List, [], member, length, if◌then◌else◌, ◌==◌, check, ◌>>=◌,
  ◌>>◌,
}
use tangram.Plan.Spec.{SpecWrapper, Url}
use tangram.Plan.Dag.{Dag}
use tangram.Io.Assigner.{FinishedBlock}
use tangram.Scheduler.DagRunner.{new_sequential, new_wide}
use tangram.Scheduler.Elem.{ControllerMsg, Effect}
use tangram.Scheduler.CollectionManager.{finish_update}
use tangram.Scheduler.CheckpointLoader.{finish_load_checkpoint}
use tangram.Scheduler.WriteManager.{finish_write_partition}
use tangram.Scheduler.CheckpointManager.{finish_checkpoint_reply}
use tangram.Scheduler.DistributeManager.{finish_distribute}
use tangram.Scheduler.BlockManager.{NodeInfo, finish_block_of}
use tangram.Scheduler.ControlManager.{control}
use tangram.Scheduler.Process.{
  Scheduler, Runner, Outcome, with_control, try_run_plan, process_finish_plan,
}
use tangram.Scheduler.Process.Failures.{recovery}

pub record Program : Type 0 where
  pub specs : List SpecWrapper
  pub dag : Dag

pub data DagRunnerType : Type 0 where
  sequential wide : DagRunnerType

-- The scheduler and what it knows of the workers.
pub record Server : Type 0 where
  pub scheduler : Scheduler
  pub register_program_count : ℕ
  pub init_program : Bool

unfoldable pub make_runner : DagRunnerType → Dag → Runner
make_runner DagRunnerType.sequential d = Runner.sequential (new_sequential d)
make_runner DagRunnerType.wide d = Runner.wide (new_wide d)

-- The first worker's program is the one that runs.
unfoldable pub take_program : DagRunnerType → Program → Server → Server
unfolding make_runner
take_program type p v = if v.init_program then v else record v {
  scheduler = record (v.scheduler) { specs = p.specs; dag_runner = make_runner type p.dag };
  init_program = true;
}

unfoldable pub register_program :
    (browse : Url → List (ℕ × ℕ))
    → (slaves : List NodeInfo) → DagRunnerType
    → ℕ
    → Program
    → Server
    → Option (Server × List Effect)
unfolding take_program
register_program browse slaves type node_id p v = do
  check (member node_id v.scheduler.elem.nodes)
  let v1 = take_program type p v
  let v2 = record v1 { register_program_count = v1.register_program_count + 1 }
  let start = (do
    r ← try_run_plan browse slaves v2.scheduler
    some (record v2 { scheduler = r.0 }, r.1))
  if v2.register_program_count == length v2.scheduler.elem.nodes then start else some (v2, [])

pub data Message : Type 0 where
  update_collection_reply : (collection_id node_id : ℕ) → Message
  block_finished : FinishedBlock → Message
  distribute_finished : (collection_id part_id node_id plan_id : ℕ) → Message
  checkpoint_finished : (collection_id : ℕ) → Message
  load_checkpoint_finished : (collection_id : ℕ) → Message
  write_partition_finished : (collection_id : ℕ) → Message
  controller : ControllerMsg → Message
  plan_finished : (plan_id : ℕ) → Message
  nodes_died : (dead_nodes : List ℕ) → Message

-- All messages but `kRegisterProgram`.
unfoldable pub process :
    (browse : Url → List (ℕ × ℕ)) → (slaves : List NodeInfo) → Message → Scheduler → Outcome
process browse slaves (Message.update_collection_reply cid node_id) s = do
  r ← finish_update s.elem cid node_id s.collections
  some (record s { collections = r.0 }, r.1)
process browse slaves (Message.block_finished f) s = do
  r ← finish_block_of f s.elem s.collections s.blocks
  some (record s { blocks = r.0.0; elem = r.0.1; collections = r.0.2 }, r.1)
process browse slaves (Message.distribute_finished cid part_id node_id plan_id) s = do
  r ← finish_distribute cid part_id node_id plan_id s.elem s.collections s.distribute
  some (record s { distribute = r.0.0; elem = r.0.1; collections = r.0.2 }, r.1)
process browse slaves (Message.checkpoint_finished cid) s = do
  r ← finish_checkpoint_reply cid s.checkpoints
  some (record s { checkpoints = r.0 }, r.1)
process browse slaves (Message.load_checkpoint_finished cid) s = do
  r ← finish_load_checkpoint cid s.loader
  some (record s { loader = r.0 }, r.1)
process browse slaves (Message.write_partition_finished cid) s = do
  r ← finish_write_partition cid s.writes
  some (record s { writes = r.0 }, r.1)
process browse slaves (Message.controller ctrl) s = with_control ctrl.plan_id (control ctrl) s
process browse slaves (Message.plan_finished plan_id) s =
    process_finish_plan browse slaves plan_id s
process browse slaves (Message.nodes_died dead) s = recovery dead s
