-- ===== src/Plan/Dag.antt =====
-- core/plan/dag.hpp and dag.cpp. A plan or collection id is a natural number; `GetLastWrite` gives
-- `none` where the code gives -1. `DebugString` and the stream operators are left out.
pub mod Visitor
pub mod Degrees
pub mod Build
pub mod Forward
pub mod Edges
pub mod Program
pub mod Fresh
use tangram.Base.{
  ℕ, ◌+◌, Bool, Option, none, some, List, [], ◌∷◌, ◌++◌, Map, lookup, set, get, has, size, erase,
  insert, length, if◌then◌else◌, ◌==◌, check, ◌>>=◌, ◌>>◌,
}

pub record Col : Type 0 where
  pub id : ℕ
  pub read_queue : List ℕ
  pub write_queue : List ℕ

pub record DagNode : Type 0 where
  pub id : ℕ
  pub out : List ℕ
  pub ins : List ℕ

pub record Dag : Type 0 where
  pub nodes : Map DagNode
  pub cols : Map Col

unfoldable pub last : List ℕ → Option ℕ
last [] = none
last (x ∷ xs) = elim (last xs) [ none ↦ some x | some y ↦ some y ]

unfoldable pub get_last_write : Col → Option ℕ
unfolding last
get_last_write c = last c.write_queue

unfoldable pub append_read : Col → ℕ → Col
append_read c r = record c { read_queue = c.read_queue ++ r ∷ [] }

unfoldable pub append_write : Col → ℕ → Col
append_write c w = record c { write_queue = c.write_queue ++ w ∷ [] }

unfoldable pub add_out : DagNode → ℕ → DagNode
add_out n i = record n { out = n.out ++ i ∷ [] }

unfoldable pub add_in : DagNode → ℕ → DagNode
add_in n i = record n { ins = n.ins ++ i ∷ [] }

abbrev pub new_node : ℕ → DagNode
new_node id = record { id = id; out = []; ins = [] }

abbrev pub new_col : ℕ → Col
new_col id = record { id = id; read_queue = []; write_queue = [] }

-- The code returns a pointer into the map: here the entry is made, and callers update it.
unfoldable pub get_or_create_dag_node : ℕ → Map DagNode → Map DagNode
get_or_create_dag_node id nodes = elim (lookup id nodes) [
  | none ↦ set id (new_node id) nodes
  | some n ↦ nodes
]

unfoldable pub get_or_create_col : ℕ → Map Col → Col
get_or_create_col id cols = elim (lookup id cols) [ none ↦ new_col id | some c ↦ c ]

-- The entry behind the pointer, after `GetOrCreateDagNode`.
unfoldable pub node_at : ℕ → Map DagNode → DagNode
node_at id nodes = get (new_node id) id nodes

unfoldable pub add_edge : ℕ → ℕ → Map DagNode → Map DagNode
unfolding get_or_create_dag_node node_at add_out add_in
add_edge src dst nodes =
    let created = get_or_create_dag_node dst (get_or_create_dag_node src nodes) in
    let from = set src (add_out (node_at src created) dst) created in
    set dst (add_in (node_at dst from) src) from

abbrev pub note : Option ℕ → List ℕ → List ℕ
note none deps = deps
note (some p) deps = insert p deps

-- The loop over the collections that a plan reads: `dependencies` and `cols_`.
unfoldable pub add_reads : ℕ → List ℕ → List ℕ × Map Col → List ℕ × Map Col
unfolding get_or_create_col get_last_write append_read
add_reads id [] s = s
add_reads id (c ∷ cs) (deps, cols) =
    let col = get_or_create_col c cols in
    add_reads id cs (note (get_last_write col) deps, set c (append_read col id) cols)

unfoldable pub add_writes : ℕ → List ℕ → List ℕ × Map Col → List ℕ × Map Col
unfolding get_or_create_col get_last_write append_write
add_writes id [] s = s
add_writes id (c ∷ cs) (deps, cols) =
    let col = get_or_create_col c cols in
    add_writes id cs (note (get_last_write col) deps, set c (append_write col id) cols)

unfoldable pub add_edges : List ℕ → ℕ → Map DagNode → Map DagNode
unfolding add_edge
add_edges [] id nodes = nodes
add_edges (d ∷ ds) id nodes = add_edges ds id (add_edge d id nodes)

unfoldable pub add_dag_node : ℕ → List ℕ → List ℕ → Dag → Dag
unfolding get_or_create_dag_node add_reads add_writes add_edges
add_dag_node id read write d =
    let nodes = get_or_create_dag_node id d.nodes in
    let (deps, cols) = add_writes id write (add_reads id read ([], d.cols)) in
    record { nodes = add_edges deps id nodes; cols = cols }

abbrev pub empty_dag : Dag
empty_dag = record { nodes = []; cols = [] }
