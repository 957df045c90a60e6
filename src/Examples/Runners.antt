-- ===== src/Examples/Runners.antt =====
-- The runners of core/scheduler/dag_runner.cpp on the graph of two plans.
use tangram.Base.{ℕ, true, false, some, [], ◌∷◌, ◌≡◌, refl, erase, member, if◌then◌else◌, ◌==◌}
use tangram.Plan.Dag.Visitor.{new_visitor}
use tangram.Plan.Dag.Build.{new_visitor-IsCounted}
use tangram.Scheduler.DagRunner.{WideDagRunner, new_wide, wide_runnable, wide_finish}
use tangram.Scheduler.DagRunner.Wide.{
  IsRunning, wide_runnable_lem, wide_finish_lem, wide_runnable-progress,
}
use tangram.Examples.Graph.{graph_runs, graph, graph-IsProgram}

abbrev start : WideDagRunner
start = new_wide graph

start-IsRunning : IsRunning start
unfolding new_wide member new_visitor
start-IsRunning = record {
  counted = new_visitor-IsCounted graph graph-IsProgram.balanced;
  forward = graph-IsProgram.forward;
  in_front = λ p h. cc;
}

abbrev begun : WideDagRunner
begun = (wide_runnable start).1

begun-running : begun.running ≡ 0 ∷ []
unfolding graph_runs new_wide wide_runnable
begun-running = refl

wide_finish_lem_example :
    (r' : WideDagRunner) × (wide_finish 0 begun ≡ some r')
    × (r'.dag_visitor.nodes ≡ erase 0 begun.dag_visitor.nodes)
    × ((q : ℕ) → member q r'.running ≡ (if 0 == q then false else member q begun.running))
    × IsRunning r'
unfolding graph_runs new_wide wide_runnable
wide_finish_lem_example = wide_finish_lem begun 0 (wide_runnable_lem start 0 start-IsRunning).2 refl

wide_runnable-progress_example : member 0 (wide_runnable start).1.running ≡ true
unfolding graph_runs new_wide
wide_runnable-progress_example =
    wide_runnable-progress start 0 (record { id = 0; out = 1 ∷ []; ins = [] })
      ((1, record { id = 1; out = []; ins = 0 ∷ [] }) ∷ []) start-IsRunning refl
