-- ===== src/Scheduler/Process/InOrder.antt =====
-- The loop of core/scheduler/scheduler.cpp under the sequential runner: the message `kFinishPlan` starts the next plan, and ends the
-- program after the last.
use tangram.Base.{
  ℕ, suc, ◌+◌, ◌<◌, false, some, List, [], ◌∷◌, ◌++◌, ◌≡◌, refl, subst, arith, lookup, erase, size,
  get_elem?, length, ◌==◌, ◌>>=◌,
}
use tangram.Plan.Spec.{SpecWrapper, Url, get_read_write}
use tangram.Plan.Dag.{empty_dag}
use tangram.Plan.Dag.Program.{add_plans, WritesOnce}
use tangram.Plan.Dag.Visitor.{DagVisitor, get_num_dag_nodes}
use tangram.Scheduler.BlockManager.{NodeInfo}
use tangram.Scheduler.DagRunner.{
  SequentialDagRunner, new_sequential, sequential_runnable, sequential_finish, sequential_remaining,
}
use tangram.Scheduler.DagRunner.Sequential.{
  new_sequential-IsReady, IsReady, finish-IsReady, first_node, IsReady-end,
}
use tangram.Scheduler.CollectionStatus.{CollectionStatus, finish_plan}
use tangram.Scheduler.CollectionStatus.Accounts.{IsAccounted, finish_plan-IsAccounted}
use tangram.Scheduler.CollectionStatus.Idle.{add_plan-idle}
use tangram.Scheduler.Elem.{WorkerCommand, to_all_workers, get_real_id}
use tangram.Scheduler.Process.{
  Scheduler, Runner, start_plan, run, run_all, remaining_plans, runnable_plans, finish_runner,
  try_run_plan, process_finish_plan,
}

-- Of the `n` plans only `r.plan_count` runs, with the collections of `w`.
pub record IsInOrder (n : ℕ) (s : Scheduler) (r : SequentialDagRunner) (w : SpecWrapper)
    : Type 0 where
  pub runner : s.dag_runner ≡ Runner.sequential r
  pub ready : IsReady r.plan_count n r.dag_visitor
  pub accounted : IsAccounted s.status
  pub running : s.status.cur_plans ≡ (r.plan_count, get_read_write w.spec) ∷ []

some_remain : (lo n : ℕ) (v : DagVisitor) → lo < n → IsReady lo n v → (size v.nodes == 0) ≡ false
unfolding size
some_remain lo n v lt r =
    let (k, rest, e) = first_node lo n v.nodes lt r.counted.sorted r.spans in rw e (ground arith)

module _ (n : ℕ) (s : Scheduler) (r : SequentialDagRunner) (w : SpecWrapper) (o : IsInOrder n s r w)
    (left : r.plan_count < n) where
  -- Finishing the running plan fails no CHECK.
  ended :
      (r' : SequentialDagRunner) × (status : CollectionStatus) × (finish_runner r.plan_count
          s.dag_runner
        ≡ some (Runner.sequential r'))
      × (finish_plan r.plan_count s.status ≡ some status)
      × (r'.plan_count ≡ r.plan_count + 1)
      × IsReady (suc r.plan_count) n r'.dag_visitor
      × IsAccounted status
      × (status.cur_plans ≡ [])
  unfolding finish_runner sequential_finish lookup erase
  ended =
      let (front, v', done, ready) = finish-IsReady r.plan_count n r.dag_visitor left o.ready in
      let found : lookup r.plan_count s.status.cur_plans ≡ some (get_read_write w.spec) =
        rw (o.running) (ground arith) in
      let (status, e, gone, cps, a) =
        finish_plan-IsAccounted r.plan_count (get_read_write w.spec) s.status o.accounted found in
      let r' : SequentialDagRunner = record { dag_visitor = v'; plan_count = r.plan_count + 1 } in
      (
        r',
        status,
        rw (o.runner) (ground (arith, done)),
        e,
        refl,
        ready,
        a,
        rw (gone, o.running) (ground arith),
      )

-- If plan k of n is the only one that runs under a sequential runner that is ready from k on, with exact
-- counters of the collections, then the message that it (or its rerun) has finished, while a plan is left,
-- fails no CHECK of the runner, of FinishPlan or of AddPlan: the scheduler does what starting plan k + 1 does
-- in a state where exactly that plan runs in the same way.
pub process_finish_plan-next :
    (browse : Url → List (ℕ × ℕ)) (slaves : List NodeInfo) (n id : ℕ) (s : Scheduler)
    (r : SequentialDagRunner) (w next : SpecWrapper)
    → IsInOrder n s r w
    → get_real_id id ≡ r.plan_count
    → suc r.plan_count < n
    → get_elem? s.specs (suc r.plan_count) ≡ some next
    → (s' : Scheduler) × (r' : SequentialDagRunner) × (process_finish_plan browse slaves id s
        ≡ (start_plan browse slaves next s' >>= λ o. some (o.0, o.1 ++ [])))
      × (r'.plan_count ≡ suc r.plan_count)
      × IsInOrder n s' r' next
      × (s'.elem ≡ s.elem)
unfolding process_finish_plan try_run_plan remaining_plans runnable_plans sequential_runnable
    sequential_remaining get_num_dag_nodes run_all run
process_finish_plan-next browse slaves n id s r w next o real more there =
    let (r', status, stopped, e, up, ready, a, idle) = ended n s r w o (omega (arith, more)) in
    let count : r'.plan_count ≡ suc r.plan_count = omega (arith, up) in
    let ready' : IsReady r'.plan_count n r'.dag_visitor = rw count ready in
    let (front, _, _, _) =
      finish-IsReady r'.plan_count n r'.dag_visitor (omega (arith, more, count)) ready' in
    let remain = some_remain (suc r.plan_count) n r'.dag_visitor more ready in
    let (status', added, a', now) = add_plan-idle r'.plan_count next.spec status a idle in
    let there' : get_elem? s.specs r'.plan_count ≡ some next = rw count there in
    let s' : Scheduler = record s { dag_runner = Runner.sequential r'; status = status' } in
    (
      s',
      r',
      ground (arith, real, stopped, e, remain, front, there', added),
      count,
      record { runner = refl; ready = ready'; accounted = a'; running = now },
      refl,
    )

-- If the last plan is the only one that runs under a sequential runner that is ready from it on, with exact
-- counters of the collections, then the message that it has finished tells all workers to exit, and no plan
-- runs.
pub process_finish_plan-last :
    (browse : Url → List (ℕ × ℕ)) (slaves : List NodeInfo) (n id : ℕ) (s : Scheduler)
    (r : SequentialDagRunner) (w : SpecWrapper)
    → IsInOrder n s r w
    → get_real_id id ≡ r.plan_count
    → suc r.plan_count ≡ n
    → (s' : Scheduler) × (process_finish_plan browse slaves id s
        ≡ some (s', to_all_workers WorkerCommand.exit ∷ []))
      × (s'.status.cur_plans ≡ [])
unfolding process_finish_plan try_run_plan remaining_plans sequential_remaining get_num_dag_nodes
    size
process_finish_plan-last browse slaves n id s r w o real end =
    let (r', status, stopped, e, up, ready, a, idle) = ended n s r w o (omega (arith, end)) in
    let empty = IsReady-end n r'.dag_visitor (subst (λ k. IsReady k n r'.dag_visitor) end ready) in
    (
      record s { dag_runner = Runner.sequential r'; status = status },
      ground (arith, real, stopped, e, empty),
      idle,
    )

-- For the sequential runner of a program that has a plan, whose plans write no collection twice, with exact
-- counters and no plan running, TryRunPlan does what starting plan 0 does in a state where exactly that plan
-- runs, under a runner that is ready from plan 0 on.
pub try_run_plan-first :
    (browse : Url → List (ℕ × ℕ)) (slaves : List NodeInfo) (plans : List (List ℕ × List ℕ))
    (s : Scheduler) (first : SpecWrapper)
    → WritesOnce plans
    → 0 < length plans
    → s.dag_runner ≡ Runner.sequential (new_sequential (add_plans 0 plans empty_dag))
    → IsAccounted s.status
    → s.status.cur_plans ≡ []
    → get_elem? s.specs 0 ≡ some first
    → (s' : Scheduler) × (try_run_plan browse slaves s
        ≡ (start_plan browse slaves first s' >>= λ o. some (o.0, o.1 ++ [])))
      × IsInOrder (length plans) s' (new_sequential (add_plans 0 plans empty_dag)) first
      × (s'.elem ≡ s.elem)
unfolding try_run_plan remaining_plans runnable_plans sequential_runnable sequential_remaining
    get_num_dag_nodes run_all run new_sequential
try_run_plan-first browse slaves plans s first u pos runner a idle there =
    let r = new_sequential (add_plans 0 plans empty_dag) in
    let ready = new_sequential-IsReady plans u in
    let (front, _, _, _) = finish-IsReady 0 (length plans) r.dag_visitor pos ready in
    let remain = some_remain 0 (length plans) r.dag_visitor pos ready in
    let (status, added, a', now) = add_plan-idle 0 first.spec s.status a idle in
    let s' : Scheduler = record s { dag_runner = Runner.sequential r; status = status } in
    (
      s',
      rw runner (ground (arith, remain, front, there, added)),
      record { runner = refl; ready = ready; accounted = a'; running = now },
      refl,
    )
