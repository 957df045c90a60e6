-- ===== src/Examples/Programs.antt =====
-- A program as core/plan/context.hpp builds it, run by core/scheduler/dag_runner.cpp, and its graph as bytes
-- (base/sarray_binstream.hpp): the theorems at concrete inputs.
use tangram.Base.{ℕ, ◌≡◌, refl, arith, some, List, [], ◌∷◌, ◌++◌, length, get_elem?, member, size}
use tangram.Plan.Spec.{SpecWrapper, map_with_join, get_read_write}
use tangram.Plan.Dag.{Dag, empty_dag}
use tangram.Plan.Dag.Program.{add_plans}
use tangram.Plan.Context.{
  Context, new_context, default_options, make_collection, make_plan, distribute_data, placeholder,
  mappartwithupdate, map_join_spec,
}
use tangram.Plan.Context.Built.{
  Built, begin, then_placeholder, then_distribute, then_mappartwithupdate, Built-accounted,
}
use tangram.Scheduler.DagRunner.{SequentialDagRunner, new_sequential, sequential_remaining}
use tangram.Scheduler.DagRunner.Sequential.{run_rounds}
use tangram.Scheduler.DagRunner.Programs.{run_rounds-Built}
use tangram.Stream.{SArrayBinStream, empty_stream}
use tangram.Stream.Graphs.{in_dag, out_dag, DagFits, in_dag-out_dag}

-- Collections 0 and 1, and a plan that maps 0 with 1 and updates 1.
abbrev context : Context
context =
    mappartwithupdate default_options 0 1 1 (placeholder 2 (distribute_data 1 new_context).1).1

abbrev context-Built : Built context
context-Built =
    then_mappartwithupdate default_options 0 1 1 (then_placeholder 2 (then_distribute 1 begin))

run_rounds-Built_example :
    (r : SequentialDagRunner) × (run_rounds (length context.plans) (new_sequential context.dag)
      ≡ some r)
    × (sequential_remaining r ≡ 0)
run_rounds-Built_example = run_rounds-Built context-Built

abbrev third : SpecWrapper
third = record { id = 2; spec = map_with_join (map_join_spec default_options 0 1) 1 }

Built-accounted_example :
    (uses : List (List ℕ × List ℕ)) × (reads writes : List ℕ) × (context.dag
      ≡ add_plans 0 uses empty_dag)
    × (third.id ≡ 2)
    × (get_elem? uses 2 ≡ some (reads, writes))
    × (writes ≡ (get_read_write third.spec).1)
    × (member 1 (reads ++ writes)
        ≡ member 1 ((get_read_write third.spec).0 ++ (get_read_write third.spec).1))
unfolding mappartwithupdate placeholder distribute_data make_collection make_plan
Built-accounted_example = Built-accounted 2 1 context-Built refl refl

abbrev graph : Dag
graph = record {
  nodes =
      (0, record { id = 0; out = 300 ∷ []; ins = [] })
      ∷ (300, record { id = 300; out = []; ins = 0 ∷ [] })
      ∷ [];
  cols = (7, record { id = 7; read_queue = 300 ∷ []; write_queue = 0 ∷ [] }) ∷ [];
}

graph-DagFits : DagFits graph
unfolding size
graph-DagFits = omega arith

in_dag-out_dag_example :
    (t : SArrayBinStream) × (in_dag (out_dag graph empty_stream) ≡ some (graph, t))
    × (t.front ≡ length t.buffer)
in_dag-out_dag_example = in_dag-out_dag graph empty_stream graph-DagFits refl
