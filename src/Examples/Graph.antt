-- ===== src/Examples/Graph.antt =====
-- Two plans: plan 0 writes collection 7, and plan 1 reads it and writes collection 8 (core/plan/dag.cpp).
use tangram.Base.{
  ℕ, true, some, List, [], ◌∷◌, ◌≡◌, refl, ◌↔◌, lookup, get, set, erase, has, size, member, insert,
}
use tangram.Plan.Dag.{Dag, DagNode, empty_dag, add_dag_node, node_at, add_out, add_in}
use tangram.Plan.Dag.Visitor.{DagVisitor, new_visitor, get_front, finish}
use tangram.Plan.Dag.Degrees.{IsCounted, IsFree, finish-IsCounted, get_front_iff}
use tangram.Plan.Dag.Build.{new_visitor-IsCounted}
use tangram.Plan.Dag.Forward.{IsForward, WrittenBelow}
use tangram.Plan.Dag.Edges.{add_dag_node-IsForward, add_dag_node-ins, wrote_last}
use tangram.Plan.Dag.Program.{
  add_plans, add_plans-IsProgram, empty-IsProgram, IsProgram, WritesOnce,
}

unfoldable pub graph_runs : Unit {0}
unfolding add_plans add_dag_node finish get_front new_visitor add_in add_out lookup get set erase
    has size member insert
graph_runs = tt

abbrev pub two_plans : List (List ℕ × List ℕ)
two_plans = ([], 7 ∷ []) ∷ (7 ∷ [], 8 ∷ []) ∷ []

abbrev pub one_plan : List (List ℕ × List ℕ)
one_plan = ([], 7 ∷ []) ∷ []

pub two_plans-WritesOnce : WritesOnce two_plans
unfolding member
two_plans-WritesOnce = ((refl, tt), ((refl, tt), tt))

abbrev pub graph : Dag
graph = add_plans 0 two_plans empty_dag

abbrev first : Dag
first = add_plans 0 one_plan empty_dag

pub graph-IsProgram : IsProgram 2 graph
graph-IsProgram = add_plans-IsProgram 0 two_plans empty_dag two_plans-WritesOnce empty-IsProgram

first-IsProgram : IsProgram 1 first
unfolding member
first-IsProgram = add_plans-IsProgram 0 one_plan empty_dag ((refl, tt), tt) empty-IsProgram

abbrev node_0 : DagNode
node_0 = record { id = 0; out = 1 ∷ []; ins = [] }

graph-front : get_front (new_visitor graph) ≡ 0 ∷ []
unfolding graph_runs
graph-front = refl

graph-ins : (node_at 1 graph.nodes).ins ≡ 0 ∷ []
unfolding graph_runs
graph-ins = refl

graph-node : lookup 0 (new_visitor graph).nodes ≡ some node_0
unfolding graph_runs
graph-node = refl

graph-degree : get 0 0 (new_visitor graph).indegrees ≡ 0
unfolding graph_runs
graph-degree = refl

graph-IsCounted : IsCounted (new_visitor graph)
graph-IsCounted = new_visitor-IsCounted graph graph-IsProgram.balanced

finish-IsCounted_example :
    (v' : DagVisitor) × (finish 0 (new_visitor graph) ≡ some v')
    × (v'.nodes ≡ erase 0 (new_visitor graph).nodes)
    × IsCounted v'
finish-IsCounted_example =
    finish-IsCounted 0 (new_visitor graph) node_0 graph-IsCounted graph-node graph-degree

get_front_iff_example : (member 1 (get_front (new_visitor graph)) ≡ true) ↔ (
    (n : DagNode) × (lookup 1 (new_visitor graph).nodes ≡ some n)
    × IsFree 1 (new_visitor graph).nodes)
get_front_iff_example = get_front_iff 1 (new_visitor graph) graph-IsCounted

first-fresh : (node_at 1 first.nodes).ins ≡ []
unfolding graph_runs
first-fresh = refl

add_dag_node-ins_example :
    member 0 (node_at 1 (add_dag_node 1 (7 ∷ []) (8 ∷ []) first).nodes).ins
    ≡ wrote_last 0 (7 ∷ 8 ∷ []) first.cols
unfolding member
add_dag_node-ins_example = add_dag_node-ins 0 1 (7 ∷ []) (8 ∷ []) first (refl, tt) first-fresh

add_dag_node-IsForward_example :
    let d' = add_dag_node 1 (7 ∷ []) (8 ∷ []) first in IsForward d'.nodes × WrittenBelow 2 d'.cols
unfolding member
add_dag_node-IsForward_example =
    add_dag_node-IsForward 1 (7 ∷ []) (8 ∷ []) first (refl, tt) first-IsProgram.below
      first-IsProgram.forward
