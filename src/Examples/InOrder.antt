-- ===== src/Examples/InOrder.antt =====
-- Programs of two plans and of one plan under the sequential runner (core/scheduler/scheduler.cpp).
use tangram.Base.{suc, some, [], ◌∷◌, ◌++◌, ◌≡◌, refl, arith, member, ◌>>=◌}
use tangram.Plan.Spec.{Spec, SpecWrapper, Url, get_read_write, map_join_read_write}
use tangram.Plan.Dag.{empty_dag}
use tangram.Plan.Dag.Program.{add_plans}
use tangram.Scheduler.DagRunner.{SequentialDagRunner, new_sequential}
use tangram.Scheduler.DagRunner.Sequential.{new_sequential-IsReady}
use tangram.Scheduler.CollectionStatus.{no_status}
use tangram.Scheduler.CollectionStatus.Accounts.{no_status-IsAccounted}
use tangram.Scheduler.Elem.{WorkerCommand, to_all_workers, get_real_id, is_recover_plan}
use tangram.Scheduler.Process.{Scheduler, Runner, start_plan, try_run_plan, process_finish_plan}
use tangram.Scheduler.Process.InOrder.{
  IsInOrder, try_run_plan-first, process_finish_plan-next, process_finish_plan-last,
}
use tangram.Examples.Graph.{two_plans, two_plans-WritesOnce, one_plan}
use tangram.Examples.Reruns.{scheduler, plan_0, busy, busy-IsAccounted, no_files}

abbrev plan_1 : SpecWrapper
plan_1 = record { id = 1; spec = Spec.write 8 (Url.text "/out") }

abbrev two : SequentialDagRunner
two = new_sequential (add_plans 0 two_plans empty_dag)

abbrev one : SequentialDagRunner
one = new_sequential (add_plans 0 one_plan empty_dag)

abbrev ready : Scheduler
ready = record scheduler {
  specs = plan_0 ∷ plan_1 ∷ [];
  dag_runner = Runner.sequential two;
  status = no_status;
}

abbrev running : Scheduler
running = record ready { status = busy }

abbrev ending : Scheduler
ending = record running { dag_runner = Runner.sequential one }

running-IsInOrder : IsInOrder 2 running two plan_0
unfolding new_sequential get_read_write map_join_read_write
running-IsInOrder = record {
  runner = refl;
  ready = new_sequential-IsReady two_plans two_plans-WritesOnce;
  accounted = busy-IsAccounted;
  running = refl;
}

ending-IsInOrder : IsInOrder 1 ending one plan_0
unfolding new_sequential get_read_write map_join_read_write member
ending-IsInOrder = record {
  runner = refl;
  ready = new_sequential-IsReady one_plan ((refl, tt), tt);
  accounted = busy-IsAccounted;
  running = refl;
}

try_run_plan-first_example :
    (s' : Scheduler) × (try_run_plan no_files [] ready
      ≡ (start_plan no_files [] plan_0 s' >>= λ o. some (o.0, o.1 ++ [])))
    × IsInOrder 2 s' two plan_0
    × (s'.elem ≡ ready.elem)
try_run_plan-first_example =
    try_run_plan-first no_files [] two_plans ready plan_0 two_plans-WritesOnce (omega arith) refl
      no_status-IsAccounted refl refl

process_finish_plan-next_example :
    (s' : Scheduler) × (r' : SequentialDagRunner) × (process_finish_plan no_files [] 0 running
      ≡ (start_plan no_files [] plan_1 s' >>= λ o. some (o.0, o.1 ++ [])))
    × (r'.plan_count ≡ suc two.plan_count)
    × IsInOrder 2 s' r' plan_1
    × (s'.elem ≡ running.elem)
unfolding new_sequential get_real_id is_recover_plan
process_finish_plan-next_example =
    process_finish_plan-next no_files [] 2 0 running two plan_0 plan_1 running-IsInOrder refl
      (omega arith) refl

process_finish_plan-last_example :
    (s' : Scheduler) × (process_finish_plan no_files [] 0 ending
      ≡ some (s', to_all_workers WorkerCommand.exit ∷ []))
    × (s'.status.cur_plans ≡ [])
unfolding new_sequential get_real_id is_recover_plan
process_finish_plan-last_example =
    process_finish_plan-last no_files [] 1 0 ending one plan_0 ending-IsInOrder refl refl
