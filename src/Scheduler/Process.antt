-- ===== src/Scheduler/Process.antt =====
-- core/scheduler/scheduler.hpp and scheduler.cpp: the scheduler's state, how a plan is run and finished, and the calls of
-- the managers. The maps of the control manager are keyed by plan: `controls` has the entries of each plan.
pub mod Failures
pub mod Rerun
pub mod Dispatch
pub mod InOrder
use tangram.Base.{
  ℕ, zero, suc, ◌+◌, ◌-◌, ◌*◌, ◌/◌, Bool, true, false, not, ◌&&◌, Option, none, some, List, [], ◌∷◌,
  ◌++◌, Map, lookup, set, get, get_elem?, write_at, length, member, ltb, if◌then◌else◌, ◌==◌, check,
  ◌>>=◌, ◌>>◌, map,
}
use tangram.Plan.Spec.{Spec, SpecWrapper, MapJoinSpec, Url, get_read_write, get_map_join_spec}
use tangram.Plan.Dag.{Dag}
use tangram.Io.Assigner.{FinishedBlock}
use tangram.Scheduler.DagRunner.{
  SequentialDagRunner, WideDagRunner, new_sequential, new_wide, sequential_runnable,
  sequential_finish, sequential_remaining, wide_runnable, wide_finish, wide_remaining,
}
use tangram.Scheduler.CollectionStatus.{
  CollectionStatus, add_plan, finish_plan, get_current_plans, get_writes, get_reads_and_cp,
  get_writes_and_cp,
}
use tangram.Scheduler.Elem.{
  SchedulerElem, Callback, ControlCommand, Effect, Move, WorkerCommand, to_all_workers,
  to_controller, get_real_id, get_recover_plan_id,
}
use tangram.Scheduler.CollectionManager.{CollectionManager, update}
use tangram.Scheduler.CheckpointLoader.{CheckpointLoader}
use tangram.Scheduler.WriteManager.{WriteManager, write_collection}
use tangram.Scheduler.CheckpointManager.{
  CheckpointManager, checkpoint_collection, load_last_checkpoint, finish_load_last,
}
use tangram.Scheduler.DistributeManager.{DistributeManager, distribute}
use tangram.Scheduler.BlockManager.{NodeInfo, BlockManager, load_collection}
use tangram.Scheduler.RecoverManager.{
  RecoverManager, Recovery, Step, recover, recover_done_for_a_collection,
}
use tangram.Scheduler.ControlManager.{
  Control, PlanControl, Result, no_plan, run_plan, abort_plan, get_cur_version,
}
use tangram.Scheduler.ControlManager.Migration.{reassign_map}

pub data Runner : Type 0 where
  sequential : SequentialDagRunner → Runner
  wide : WideDagRunner → Runner

pub record Scheduler : Type 0 where
  pub elem : SchedulerElem
  pub specs : List SpecWrapper
  pub dag_runner : Runner
  pub status : CollectionStatus
  pub controls : Map PlanControl
  pub blocks : BlockManager
  pub distribute : DistributeManager
  pub writes : WriteManager
  pub collections : CollectionManager
  pub checkpoints : CheckpointManager
  pub recovery : RecoverManager
  pub loader : CheckpointLoader

abbrev pub Outcome : Type 0
Outcome = Option (Scheduler × List Effect)

-- A call of the control manager for plan `id`.
unfoldable pub with_control : ℕ → (Control → Result) → Scheduler → Outcome
with_control id f s = do
  r ← f (record { elem = s.elem; status = s.status; plan = get no_plan id s.controls })
  some (
    record s { elem = r.0.elem; status = r.0.status; controls = set id r.0.plan s.controls },
    r.1,
  )

-- A call of the recover manager.
unfoldable pub with_recovery : (Recovery → Option (Recovery × List Effect)) → Scheduler → Outcome
with_recovery f s = do
  r ← f (record {
    elem = s.elem;
    loader = s.loader;
    collections = s.collections;
    manager = s.recovery;
  })
  some (
    record s {
      elem = r.0.elem;
      loader = r.0.loader;
      collections = r.0.collections;
      recovery = r.0.manager;
    },
    r.1,
  )

-- `browse` is what the browser lists for a URL, and `slaves` are the nodes with their hostnames.
unfoldable pub start_plan :
    (browse : Url → List (ℕ × ℕ)) → (slaves : List NodeInfo) → SpecWrapper → Scheduler → Outcome
unfolding with_control
start_plan browse slaves w s = elim w.spec [
  | Spec.distribute cid n ↦ do
    r ← distribute w.id cid n s.elem s.distribute
    some (record s { distribute = r.0 }, r.1)
  | Spec.load cid url meta whole ↦ do
    r ← load_collection (browse url) slaves cid w.id s.blocks
    some (record s { blocks = r.0 }, r.1)
  | Spec.map_join m ↦ with_control w.id (run_plan w (Callback.plan_done w.id)) s
  | Spec.map_with_join m c ↦ with_control w.id (run_plan w (Callback.plan_done w.id)) s
  | Spec.write cid url ↦ do
    r ← write_collection s.elem w s.writes
    some (record s { writes = r.0 }, r.1)
  | Spec.checkpoint cid url ↦ do
    r ← checkpoint_collection s.elem w s.status s.checkpoints
    some (record s { checkpoints = r.0; status = r.1 }, r.2)
  | Spec.load_checkpoint cid url ↦ do
    r ← load_last_checkpoint s.elem w s.status s.loader s.checkpoints
    some (record s { checkpoints = r.0; loader = r.1 }, r.2)
]

unfoldable pub run :
    (browse : Url → List (ℕ × ℕ)) → (slaves : List NodeInfo) → ℕ → Scheduler → Outcome
unfolding start_plan
run browse slaves plan_id s = do
  w ← get_elem? s.specs plan_id
  status ← add_plan plan_id (get_read_write w.spec) s.status
  start_plan browse slaves w (record s { status = status })

unfoldable pub run_all :
    (browse : Url → List (ℕ × ℕ)) → (slaves : List NodeInfo) → List ℕ → Scheduler → Outcome
unfolding run
run_all browse slaves [] s = some (s, [])
run_all browse slaves (p ∷ ps) s = do
  one ← run browse slaves p s
  rest ← run_all browse slaves ps one.0
  some (rest.0, one.1 ++ rest.1)

unfoldable pub remaining_plans : Runner → ℕ
remaining_plans (Runner.sequential r) = sequential_remaining r
remaining_plans (Runner.wide r) = wide_remaining r

unfoldable pub runnable_plans : Runner → Option (List ℕ × Runner)
runnable_plans (Runner.sequential r) = do
  plans ← sequential_runnable r
  some (plans, Runner.sequential r)
runnable_plans (Runner.wide r) = let (plans, r') = wide_runnable r in some (plans, Runner.wide r')

unfoldable pub finish_runner : ℕ → Runner → Option Runner
finish_runner plan_id (Runner.sequential r) = do
  r' ← sequential_finish plan_id r
  some (Runner.sequential r')
finish_runner plan_id (Runner.wide r) = do r' ← wide_finish plan_id r; some (Runner.wide r')

unfoldable pub try_run_plan :
    (browse : Url → List (ℕ × ℕ)) → (slaves : List NodeInfo) → Scheduler → Outcome
unfolding remaining_plans runnable_plans run_all
try_run_plan browse slaves s =
    let go = (do
      r ← runnable_plans s.dag_runner
      run_all browse slaves r.0 (record s { dag_runner = r.1 })) in
    if remaining_plans s.dag_runner == 0
    then some (s, to_all_workers WorkerCommand.exit ∷ [])
    else go

-- The message `kFinishPlan`.
unfoldable pub process_finish_plan :
    (browse : Url → List (ℕ × ℕ)) → (slaves : List NodeInfo) → ℕ → Scheduler → Outcome
unfolding finish_runner try_run_plan
process_finish_plan browse slaves id s = do
  let plan_id = get_real_id id
  runner ← finish_runner plan_id s.dag_runner
  status ← finish_plan plan_id s.status
  try_run_plan browse slaves (record s { dag_runner = runner; status = status })
