-- ===== src/Scheduler/DagRunner/Programs.antt =====
-- The sequential runner of core/scheduler/dag_runner.cpp on the programs that core/plan/context.hpp builds.
use tangram.Base.{◌≡◌, some, length}
use tangram.Plan.Context.{Context}
use tangram.Plan.Context.Built.{
  Built, Built-IsBuilt, accesses, length-accesses, accesses-WritesOnce,
}
use tangram.Scheduler.DagRunner.{SequentialDagRunner, new_sequential, sequential_remaining}
use tangram.Scheduler.DagRunner.Sequential.{run_rounds, run_rounds-total}

-- Whatever calls of Context build a program, one after the other: the sequential runner runs it to the end. In
-- each round the next plan is found in the front, no CHECK fails, and after as many rounds as there are plans
-- none remains.
pub run_rounds-Built :
    {c : Context}
    → Built c
    → (r : SequentialDagRunner) × (run_rounds (length c.plans) (new_sequential c.dag) ≡ some r)
      × (sequential_remaining r ≡ 0)
run_rounds-Built {c} b =
    let s = Built-IsBuilt b in
    rw (s.graph, ← length-accesses c.plans)
      (run_rounds-total (accesses c.plans) (accesses-WritesOnce c.plans))
