-- ===== src/Plan/Dag/Program.antt =====
-- The graph of a whole program, as core/plan/context.hpp builds it: plan by plan, by ascending id.
use tangram.Base.{
  has-set, ℕ, suc, ◌+◌, List, [], ◌∷◌, Map, ◌≡◌, inl, inr, ◌&&◌, ◌||◌, subst, lookup, set, get, has,
  member, length, ◌==◌, ltb, leb, arith, Option-cases,
}
use native.Mathlib.Nat.{add-zero}
use tangram.Plan.Dag.{
  Dag, DagNode, node_at, new_node, get_or_create_dag_node, add_out, add_in, add_edge, add_edges,
  add_dag_node, add_reads, add_writes, empty_dag, get_or_create_col,
}
use tangram.Plan.Dag.Build.{IsBalanced, add_dag_node-IsBalanced, empty-IsBalanced}
use tangram.Plan.Dag.Forward.{
  IsForward, WrittenBelow, Distinct, AllBelow, add_reads-WrittenBelow, add_writes-WrittenBelow,
}
use tangram.Plan.Dag.Edges.{add_dag_node-IsForward}

-- The plans of a map of nodes are those from `lo` up to `hi`.
abbrev pub Spans : ℕ → ℕ → Map DagNode → Type 0
Spans lo hi nodes = (k : ℕ) → has k nodes ≡ (leb lo k && ltb k hi)

has-get_or_create :
    (k id : ℕ) (nodes : Map DagNode)
    → has k (get_or_create_dag_node id nodes) ≡ (id == k || has k nodes)
unfolding get_or_create_dag_node
has-get_or_create k id nodes = elim (Option-cases (lookup id nodes)) [
  | inl e ↦ rw (e, get_or_create_dag_node) (has-set k id (new_node id) nodes)
  | inr (n, e) ↦ rw (e, get_or_create_dag_node) (unfold has in ground arith)
]

has-add_edge :
    (k src dst : ℕ) (nodes : Map DagNode)
    → has k (add_edge src dst nodes) ≡ (src == k || dst == k || has k nodes)
unfolding add_edge
has-add_edge k src dst nodes =
    let made = get_or_create_dag_node dst (get_or_create_dag_node src nodes) in
    let out = set src (add_out (node_at src made) dst) made in
    ground (
      arith,
      has-set k dst (add_in (node_at dst out) src) out,
      has-set k src (add_out (node_at src made) dst) made,
      has-get_or_create k dst (get_or_create_dag_node src nodes),
      has-get_or_create k src nodes,
    )

has-add_edges :
    (k id : ℕ) (ds : List ℕ) (nodes : Map DagNode)
    → AllBelow id ds
    → Spans 0 (suc id) nodes
    → has k (add_edges ds id nodes) ≡ (leb 0 k && ltb k (suc id))
unfolding add_edges member
has-add_edges k id [] nodes b s = s k
has-add_edges k id (d ∷ ds) nodes b s =
    has-add_edges k id ds (add_edge d id nodes) (λ p h. b p (ground arith))
      (λ j. ground (arith, s j, b d, has-add_edge j d id nodes))

-- The graph of a program: `dag_` of core/plan/context.hpp, where the plan ids are 0, 1, 2, ….
unfoldable pub add_plans : ℕ → List (List ℕ × List ℕ) → Dag → Dag
add_plans id [] d = d
add_plans id ((read, write) ∷ plans) d = add_plans (suc id) plans (add_dag_node id read write d)

abbrev pub WritesOnce : List (List ℕ × List ℕ) → Type 0
WritesOnce [] = Unit
WritesOnce ((read, write) ∷ plans) = Distinct write × WritesOnce plans

pub record IsProgram (id : ℕ) (d : Dag) : Type 0 where
  pub balanced : IsBalanced d.nodes
  pub forward : IsForward d.nodes
  pub below : WrittenBelow id d.cols
  pub spans : Spans 0 id d.nodes

add_dag_node-IsProgram :
    (id : ℕ) (read write : List ℕ) (d : Dag)
    → Distinct write
    → IsProgram id d
    → IsProgram (suc id) (add_dag_node id read write d)
unfolding add_dag_node
add_dag_node-IsProgram id read write d u p =
    let from = add_reads id read ([], d.cols) in
    let r = add_reads-WrittenBelow id read [] d.cols (λ p h. unfold member in cc) p.below in
    let s =
      add_writes-WrittenBelow id write from.0 from.1 u r.0 (λ c p _. r.1 c p)
        (λ c p h. omega (arith, r.1 c p h)) in
    let f = add_dag_node-IsForward id read write d u p.below p.forward in
    record {
      balanced = add_dag_node-IsBalanced id read write d p.balanced;
      forward = f.0;
      below = f.1;
      spans = λ k.
          has-add_edges k id (add_writes id write from).0 (get_or_create_dag_node id d.nodes) s.0
            (λ j. ground (arith, has-get_or_create j id d.nodes, p.spans j));
    }

pub add_plans-IsProgram :
    (id : ℕ) (plans : List (List ℕ × List ℕ)) (d : Dag)
    → WritesOnce plans
    → IsProgram id d
    → IsProgram (id + length plans) (add_plans id plans d)
unfolding add_plans
add_plans-IsProgram id [] d u p = rw (add-zero id) p
add_plans-IsProgram id ((read, write) ∷ plans) d u p =
    let same : suc id + length plans ≡ id + suc (length plans) = omega arith in
    subst (λ k. IsProgram k (add_plans (suc id) plans (add_dag_node id read write d))) same
      (add_plans-IsProgram (suc id) plans (add_dag_node id read write d) u.1
        (add_dag_node-IsProgram id read write d u.0 p))

pub empty-IsProgram : IsProgram 0 empty_dag
unfolding node_at get member get_or_create_col lookup has
empty-IsProgram = record {
  balanced = empty-IsBalanced;
  forward = λ k c h. cc;
  below = λ c p h. cc;
  spans = λ k. ground arith;
}
