-- ===== src/Plan/Dag/Build.antt =====
-- What `Dag::AddDagNode` of core/plan/dag.cpp adds.
use tangram.Base.{
  ℕ, suc, ◌+◌, none, some, List, [], ◌∷◌, Map, ◌≡◌, refl, ◌∙◌, inl, inr, lookup, set, get, sum,
  count, IsSorted, Above, length, if◌then◌else◌, ◌==◌, arith, get-set, get-none, get-some,
  Option-cases, length-append, count-append, sum-set_new, sum-set_old, Above-set, lookup-set,
  lookup_below,
}
use tangram.Plan.Dag.{
  Dag, DagNode, node_at, new_node, get_or_create_dag_node, add_out, add_in, add_edge, add_edges,
  add_reads, add_writes, add_dag_node, empty_dag,
}
use tangram.Plan.Dag.Visitor.{new_visitor, init_indegrees}
use tangram.Plan.Dag.Degrees.{pending, IsNamed, IsCounted}

-- Each node has as many entries in `in` as the other nodes have for it in `out`.
pub record IsBalanced (nodes : Map DagNode) : Type 0 where
  pub sorted : IsSorted nodes
  pub named : IsNamed nodes
  pub balanced : (k : ℕ) → length (node_at k nodes).ins ≡ pending k nodes

set-IsNamed :
    (id : ℕ) (n : DagNode) (nodes : Map DagNode)
    → n.id ≡ id
    → IsNamed nodes
    → IsNamed (set id n nodes)
set-IsNamed id n nodes same h k m e = ground (arith, h k m, lookup-set k id n nodes)

pub node_at-set :
    (j k : ℕ) (n : DagNode) (nodes : Map DagNode)
    → node_at j (set k n nodes) ≡ (if k == j then n else node_at j nodes)
unfolding node_at
node_at-set j k n nodes = get-set (new_node j) j k n nodes

node_at-id : (k : ℕ) (nodes : Map DagNode) → IsNamed nodes → (node_at k nodes).id ≡ k
unfolding node_at get
node_at-id k nodes h = elim (Option-cases (lookup k nodes)) [
  | inl e ↦ rw (e, get)
  | inr (n, e) ↦ rw (e, get) (h k n e)
]

pending-set :
    (k id : ℕ) (n : DagNode) (nodes : Map DagNode)
    → IsSorted nodes
    → pending k (set id n nodes) + count k (node_at id nodes).out ≡ pending k nodes + count k n.out
unfolding node_at
pending-set k id n nodes s = elim (Option-cases (lookup id nodes)) [
  | inl e ↦
      rw (get-none (new_node id) id nodes e)
        (unfold count in omega (arith, sum-set_new (λ _ n. count k n.out) id n nodes e))
  | inr (m, e) ↦
      rw (get-some (new_node id) id nodes e) (sum-set_old (λ _ n. count k n.out) 0 id n m nodes s e)
]

-- The map of nodes reads as it did, with an entry where there was none.
pub node_at-get_or_create :
    (k id : ℕ) (nodes : Map DagNode) → node_at k (get_or_create_dag_node id nodes) ≡ node_at k nodes
unfolding get_or_create_dag_node node_at
node_at-get_or_create k id nodes = elim (Option-cases (lookup id nodes)) [
  | inl e ↦
      rw (e, get_or_create_dag_node)
        (ground
          (arith, get-set (new_node k) k id (new_node id) nodes, get-none (new_node id) id nodes e))
  | inr (m, e) ↦ rw (e, get_or_create_dag_node)
]

pub node_at-none :
    (k : ℕ) (nodes : Map DagNode) → lookup k nodes ≡ none → node_at k nodes ≡ new_node k
unfolding node_at
node_at-none k nodes e = get-none (new_node k) k nodes e

get_or_create-IsBalanced :
    (id : ℕ) (nodes : Map DagNode) → IsBalanced nodes → IsBalanced (get_or_create_dag_node id nodes)
unfolding get_or_create_dag_node count
get_or_create-IsBalanced id nodes b = elim (Option-cases (lookup id nodes)) [
  | inl e ↦
      rw (e, get_or_create_dag_node)
        (record {
          sorted = Above-set 0 id (new_node id) nodes (omega arith) b.sorted;
          named = set-IsNamed id (new_node id) nodes refl b.named;
          balanced = λ k. ground (
            arith,
            b.balanced k,
            pending-set k id (new_node id) nodes b.sorted,
            node_at-set k id (new_node id) nodes,
            node_at-none id nodes e,
            node_at-none k nodes,
          );
        })
  | inr (m, e) ↦ rw (e, get_or_create_dag_node) b
]

module _ (src dst : ℕ) (nodes : Map DagNode) (b : IsBalanced nodes) where
  abbrev with_out : Map DagNode
  with_out = set src (add_out (node_at src nodes) dst) nodes

  abbrev with_edge : Map DagNode
  with_edge = set dst (add_in (node_at dst with_out) src) with_out

  with_out-IsSorted : IsSorted with_out
  with_out-IsSorted = Above-set 0 src _ nodes (omega arith) b.sorted

  with_out-IsNamed : IsNamed with_out
  unfolding add_out
  with_out-IsNamed = set-IsNamed src _ nodes (node_at-id src nodes b.named) b.named

  pending-with_edge : (k : ℕ) → pending k with_edge ≡ pending k nodes + (if dst == k then 1 else 0)
  unfolding add_out add_in count
  pending-with_edge k = ground (
    arith,
    pending-set k src (add_out (node_at src nodes) dst) nodes b.sorted,
    pending-set k dst (add_in (node_at dst with_out) src) with_out with_out-IsSorted,
    count-append k (node_at src nodes).out (dst ∷ []),
  )

  length-with_edge :
      (k : ℕ)
      → length (node_at k with_edge).ins
        ≡ length (node_at k nodes).ins + (if dst == k then 1 else 0)
  unfolding add_out add_in
  length-with_edge k = ground (
    arith,
    node_at-set k dst (add_in (node_at dst with_out) src) with_out,
    node_at-set k src (add_out (node_at src nodes) dst) nodes,
    node_at-set dst src (add_out (node_at src nodes) dst) nodes,
    length-append (node_at k with_out).ins (src ∷ []),
    length-append (node_at dst with_out).ins (src ∷ []),
  )

  with_edge-IsBalanced : IsBalanced with_edge
  unfolding add_in
  with_edge-IsBalanced = record {
    sorted = Above-set 0 dst _ with_out (omega arith) with_out-IsSorted;
    named = set-IsNamed dst _ with_out (node_at-id dst with_out with_out-IsNamed) with_out-IsNamed;
    balanced = λ k. omega (arith, length-with_edge k, pending-with_edge k, b.balanced k);
  }

add_edge-IsBalanced :
    (src dst : ℕ) (nodes : Map DagNode) → IsBalanced nodes → IsBalanced (add_edge src dst nodes)
unfolding add_edge
add_edge-IsBalanced src dst nodes b =
    with_edge-IsBalanced src dst _
      (get_or_create-IsBalanced dst _ (get_or_create-IsBalanced src nodes b))

add_edges-IsBalanced :
    (ds : List ℕ) (id : ℕ) (nodes : Map DagNode)
    → IsBalanced nodes
    → IsBalanced (add_edges ds id nodes)
unfolding add_edges
add_edges-IsBalanced [] id nodes b = b
add_edges-IsBalanced (d ∷ ds) id nodes b =
    add_edges-IsBalanced ds id _ (add_edge-IsBalanced d id nodes b)

-- AddDagNode keeps the two ends of every edge in step.
pub add_dag_node-IsBalanced :
    (id : ℕ) (read write : List ℕ) (d : Dag)
    → IsBalanced d.nodes
    → IsBalanced (add_dag_node id read write d).nodes
unfolding add_dag_node
add_dag_node-IsBalanced id read write d b =
    let found = add_writes id write (add_reads id read ([], d.cols)) in
    add_edges-IsBalanced found.0 id _ (get_or_create-IsBalanced id d.nodes b)

get-init_indegrees :
    (b k : ℕ) (nodes : Map DagNode) (degrees : Map ℕ)
    → Above b nodes
    → IsNamed nodes
    → get 0 k (init_indegrees nodes degrees)
      ≡ elim (lookup k nodes) [ none ↦ get 0 k degrees | some n ↦ length n.ins ]
unfolding init_indegrees lookup
get-init_indegrees b k [] degrees a named = refl
get-init_indegrees b k ((j, n) ∷ nodes) degrees a named = ground (
  arith,
  get-init_indegrees (suc j) k nodes (set n.id (length n.ins) degrees) a.1
      (λ i m e. named i m (ground (arith, lookup_below i (suc j) nodes))),
  get-set 0 k n.id (length n.ins) degrees,
  named j n,
  lookup_below k (suc j) nodes,
)

-- If the two ends of every edge of a graph are in step, then the in-degrees that a visitor starts from count
-- the edges of the graph.
pub new_visitor-IsCounted : (d : Dag) → IsBalanced d.nodes → IsCounted (new_visitor d)
unfolding new_visitor node_at get
new_visitor-IsCounted d b = record {
  sorted = b.sorted;
  named = b.named;
  counted = λ k. get-init_indegrees 0 k d.nodes [] b.sorted b.named ∙ initial k ∙ b.balanced k;
}
  where
    initial :
        (k : ℕ)
        → (elim (lookup k d.nodes) [ none ↦ get 0 k [] | some n ↦ length n.ins ])
          ≡ length (node_at k d.nodes).ins
    initial k = elim (Option-cases (lookup k d.nodes)) [
      | inl e ↦ unfold lookup in ground arith
      | inr (n, e) ↦ ground arith
    ]

pub empty-IsBalanced : IsBalanced empty_dag.nodes
unfolding node_at get lookup sum
empty-IsBalanced = record { sorted = tt; named = λ k n e. cc; balanced = λ k. refl }
