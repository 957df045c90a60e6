-- ===== src/Plan/Dag/Visitor.antt =====
-- `DagVistor` of core/plan/dag.hpp and dag.cpp.
use tangram.Base.{
  ℕ, zero, suc, Option, none, some, List, [], ◌∷◌, Map, set, get, size, erase, length,
  if◌then◌else◌, ◌==◌, check, ◌>>=◌, ◌>>◌,
}
use tangram.Plan.Dag.{Dag, DagNode, Col, node_at}

pub record DagVisitor : Type 0 where
  pub nodes : Map DagNode
  pub indegrees : Map ℕ
  pub cols : Map Col

unfoldable pub init_indegrees : Map DagNode → Map ℕ → Map ℕ
init_indegrees [] degrees = degrees
init_indegrees ((k, n) ∷ nodes) degrees = init_indegrees nodes (set n.id (length n.ins) degrees)

unfoldable pub new_visitor : Dag → DagVisitor
unfolding init_indegrees
new_visitor d = record { nodes = d.nodes; indegrees = init_indegrees d.nodes []; cols = d.cols }

-- The nodes of in-degree 0, by ascending id.
unfoldable pub front_of : Map ℕ → Map DagNode → List ℕ
front_of degrees [] = []
front_of degrees ((k, n) ∷ nodes) =
    let rest = front_of degrees nodes in if get 0 n.id degrees == 0 then n.id ∷ rest else rest

unfoldable pub get_front : DagVisitor → List ℕ
unfolding front_of
get_front v = front_of v.indegrees v.nodes

-- `indegrees_[child] -= 1` and the check that the result is not negative.
unfoldable pub decrement : ℕ → Map ℕ → Option (Map ℕ)
decrement child degrees = elim (get 0 child degrees) [
  | zero ↦ none
  | suc n ↦ some (set child n degrees)
]

unfoldable pub decrement_all : List ℕ → Map ℕ → Option (Map ℕ)
unfolding decrement
decrement_all [] degrees = some degrees
decrement_all (c ∷ cs) degrees = decrement c degrees >>= decrement_all cs

unfoldable pub finish : ℕ → DagVisitor → Option DagVisitor
unfolding decrement_all node_at
finish id v = do
  check (get 0 id v.indegrees == 0)
  degrees ← decrement_all (node_at id v.nodes).out v.indegrees
  some (record v { nodes = erase id v.nodes; indegrees = erase id degrees })

unfoldable pub get_num_dag_nodes : DagVisitor → ℕ
get_num_dag_nodes v = size v.nodes
