-- ===== src/Plan/Dag/Fresh.antt =====
-- The plans of core/plan/dag.cpp that nothing orders: no earlier plan writes what they read or write.
use tangram.Base.{
  ℕ, suc, ◌<◌, ◌≢◌, true, false, none, List, [], ◌∷◌, ◌++◌, Map, ◌≡◌, refl, ◌∙◌, ap, inl, inr,
  arith, lookup, set, has, member, length, Option-cases,
}
use tangram.Plan.Dag.{
  Dag, DagNode, Col, node_at, get_or_create_dag_node, add_edge, add_edges, add_dag_node, add_in,
  add_out, get_or_create_col, get_last_write, append_write, note, add_reads, add_writes,
}
use tangram.Plan.Dag.Build.{node_at-get_or_create, new_visitor-IsCounted}
use tangram.Plan.Dag.Degrees.{pending-IsFree, get_front_iff}
use tangram.Plan.Dag.Visitor.{new_visitor, get_front}
use tangram.Plan.Dag.Forward.{Distinct, col_at-set}
use tangram.Plan.Dag.Program.{IsProgram, add_plans}
use tangram.Plan.Dag.Edges.{wrote_last, node_at-add_edge, add_reads-SameWriters, add_dag_node-ins}

ins-add_edges_other :
    (k : ℕ) (ds : List ℕ) (id : ℕ) (nodes : Map DagNode)
    → k ≢ id
    → (node_at k (add_edges ds id nodes)).ins ≡ (node_at k nodes).ins
unfolding add_edges add_out add_in
ins-add_edges_other k [] id nodes h = refl
ins-add_edges_other k (d ∷ ds) id nodes h =
    ground (arith, ins-add_edges_other k ds id (add_edge d id nodes), node_at-add_edge k d id nodes)

-- The edges of a new plan lead to that plan.
pub ins-add_dag_node_other :
    (k id : ℕ) (reads writes : List ℕ) (d : Dag)
    → k ≢ id
    → (node_at k (add_dag_node id reads writes d).nodes).ins ≡ (node_at k d.nodes).ins
unfolding add_dag_node
ins-add_dag_node_other k id reads writes d h =
    let deps = (add_writes id writes (add_reads id reads ([], d.cols))).0 in
    ground (
      arith,
      ins-add_edges_other k deps id (get_or_create_dag_node id d.nodes),
      node_at-get_or_create k id d.nodes,
    )

-- Later plans give an earlier one no edge.
pub ins-add_plans :
    (k id : ℕ) (plans : List (List ℕ × List ℕ)) (d : Dag)
    → k < id
    → (node_at k (add_plans id plans d).nodes).ins ≡ (node_at k d.nodes).ins
unfolding add_plans
ins-add_plans k id [] d h = refl
ins-add_plans k id ((reads, writes) ∷ plans) d h =
    ins-add_plans k (suc id) plans (add_dag_node id reads writes d) (omega (arith, h))
    ∙ ins-add_dag_node_other k id reads writes d (λ e. omega (arith, h, e))

-- Nobody has written any of the collections.
abbrev pub Unwritten : List ℕ → Map Col → Type 0
Unwritten cs cols = (c : ℕ) → member c cs ≡ true → get_last_write (get_or_create_col c cols) ≡ none

wrote_last-Unwritten :
    (p : ℕ) (cs : List ℕ) (cols : Map Col) → Unwritten cs cols → wrote_last p cs cols ≡ false
unfolding wrote_last member
wrote_last-Unwritten p [] cols u = refl
wrote_last-Unwritten p (c ∷ cs) cols u =
    ground (arith, u c, wrote_last-Unwritten p cs cols (λ j m. u j (ground arith)))

no_member : (xs : List ℕ) → ((p : ℕ) → member p xs ≡ false) → xs ≡ []
unfolding member
no_member [] h = refl
no_member (x ∷ xs) h = absurd (ground (arith, h x))

-- Such a plan gets no edge.
pub ins-Unwritten :
    (id : ℕ) (reads writes : List ℕ) (d : Dag)
    → Distinct writes
    → (node_at id d.nodes).ins ≡ []
    → Unwritten (reads ++ writes) d.cols
    → (node_at id (add_dag_node id reads writes d).nodes).ins ≡ []
ins-Unwritten id reads writes d u fresh none_wrote = no_member _ (λ p.
    add_dag_node-ins p id reads writes d u fresh
    ∙ wrote_last-Unwritten p (reads ++ writes) d.cols none_wrote)

get_last_write-add_writes :
    (id : ℕ) (cs deps : List ℕ) (cols : Map Col) (j : ℕ)
    → member j cs ≡ false
    → get_last_write (get_or_create_col j (add_writes id cs (deps, cols)).1)
      ≡ get_last_write (get_or_create_col j cols)
unfolding add_writes member
get_last_write-add_writes id [] deps cols j h = refl
get_last_write-add_writes id (c ∷ cs) deps cols j h =
    let col = get_or_create_col c cols in
    let cols' = set c (append_write col id) cols in
    ground (
      arith,
      get_last_write-add_writes id cs (note (get_last_write col) deps) cols' j,
      ap get_last_write (col_at-set j c (append_write col id) cols),
    )

-- What a plan does not write has the last writer that it had.
pub add_dag_node-Unwritten :
    (id : ℕ) (reads writes cs : List ℕ) (d : Dag)
    → Unwritten cs d.cols
    → ((c : ℕ) → member c cs ≡ true → member c writes ≡ false)
    → Unwritten cs (add_dag_node id reads writes d).cols
unfolding add_dag_node
add_dag_node-Unwritten id reads writes cs d u apart c m =
    let from = add_reads id reads ([], d.cols) in
    get_last_write-add_writes id writes from.0 from.1 c (apart c m)
    ∙ add_reads-SameWriters id reads [] d.cols c
    ∙ u c m

-- A plan without an edge to it is in the front of the new graph.
pub get_front-no_ins :
    (k n : ℕ) (d : Dag)
    → IsProgram n d
    → k < n
    → (node_at k d.nodes).ins ≡ []
    → member k (get_front (new_visitor d)) ≡ true
unfolding new_visitor has
get_front-no_ins k n d p below e = elim (Option-cases (lookup k d.nodes)) [
  | inl missing ↦ absurd (ground (arith, p.spans k))
  | inr (node, there) ↦
      (get_front_iff k (new_visitor d) (new_visitor-IsCounted d p.balanced)).1
        (node, there, pending-IsFree k d.nodes (omega (arith, p.balanced.balanced k, ap length e)))
]
