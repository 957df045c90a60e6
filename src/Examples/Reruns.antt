-- ===== src/Examples/Reruns.antt =====
-- A plan of five iterations with a checkpoint after every second one, aborted at version 3 (core/scheduler/scheduler.cpp).
use tangram.Base.{
  ℕ, ◌+◌, ◌*◌, ◌/◌, some, List, [], ◌∷◌, ◌≡◌, refl, arith, lookup, get, set, sum, has,
}
use tangram.Plan.Spec.{
  Spec, SpecWrapper, MapJoinSpec, Url, ReadWriteVector, get_read_write, map_join_read_write,
  get_map_join_spec,
}
use tangram.Plan.Dag.{empty_dag}
use tangram.Scheduler.CollectionStatus.{
  CollectionStatus, no_status, add_plan, take_reads, take_writes,
}
use tangram.Scheduler.CollectionStatus.Accounts.{
  IsAccounted, no_status-IsAccounted, add_plan-IsAccounted,
}
use tangram.Scheduler.DagRunner.{new_sequential}
use tangram.Scheduler.Elem.{ControlCommand, to_all_controllers, recover_magic}
use tangram.Scheduler.ControlManager.{PlanControl, no_plan}
use tangram.Scheduler.Process.{Scheduler, Runner}
use tangram.Scheduler.Process.Failures.{finish_recovery}
use tangram.Scheduler.Process.Rerun.{finish_recovery-relaunches}
use tangram.Examples.Managers.{
  idle_collections, idle_loader, idle_writes, idle_checkpoints, elem, recovering,
}

abbrev update_7_8 : MapJoinSpec
update_7_8 = record {
  map_collection_id = 7;
  update_collection_id = 8;
  num_iter = 5;
  staleness = 0;
  checkpoint_interval = 2;
  checkpoint_path = some "/cp";
}

abbrev pub plan_0 : SpecWrapper
plan_0 = record { id = 0; spec = Spec.map_join update_7_8 }

abbrev uses : ReadWriteVector
uses = (7 ∷ [], 8 ∷ [])

abbrev pub busy : CollectionStatus
busy = record {
  cur_plans = (0, uses) ∷ [];
  read_ids = (7, 1) ∷ [];
  write_ids = (8, 1) ∷ [];
  last_cp = [];
}

busy_start : add_plan 0 uses no_status ≡ some busy
unfolding add_plan take_reads take_writes lookup get set has
busy_start = refl

pub busy-IsAccounted : IsAccounted busy
unfolding sum
busy-IsAccounted =
    (add_plan-IsAccounted 0 uses no_status busy no_status-IsAccounted (λ c h. refl) busy_start).0

abbrev aborted : PlanControl
aborted = record no_plan { spec = some plan_0; versions = 3; expected_versions = 5 }

abbrev pub scheduler : Scheduler
scheduler = record {
  elem = elem;
  specs = plan_0 ∷ [];
  dag_runner = Runner.sequential (new_sequential empty_dag);
  status = busy;
  controls = (0, aborted) ∷ [];
  blocks = record { assigners = []; stored_blocks = []; cid_pid = [] };
  distribute = record { part_expected = []; distribute_map = [] };
  writes = idle_writes;
  collections = idle_collections;
  checkpoints = idle_checkpoints;
  recovery = recovering;
  loader = idle_loader;
}

abbrev pub no_files : Url → List (ℕ × ℕ)
no_files url = []

finish_recovery-relaunches_example :
    (s' : Scheduler) × (w' : SpecWrapper) × (finish_recovery no_files [] scheduler
      ≡ some (s', to_all_controllers (0 + recover_magic) (ControlCommand.setup w') ∷ []))
    × IsAccounted s'.status
    × (s'.status.cur_plans ≡ (0, get_read_write plan_0.spec) ∷ [])
    × ((get no_plan (0 + recover_magic) s'.controls).versions ≡ 0)
    × ((get no_plan (0 + recover_magic) s'.controls).expected_versions
          + (get no_plan 0 scheduler.controls).versions / 2 * 2
        ≡ 5)
unfolding lookup get get_read_write map_join_read_write get_map_join_spec
finish_recovery-relaunches_example =
    finish_recovery-relaunches no_files [] 0 scheduler plan_0 update_7_8 busy-IsAccounted refl refl
      refl (omega arith) (omega arith) (omega arith)
