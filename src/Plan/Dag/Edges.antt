-- ===== src/Plan/Dag/Edges.antt =====
-- The edges that `Dag::AddDagNode` of core/plan/dag.cpp adds.
use mathlib.Core.List.{append-nil, append_assoc}
use tangram.Base.{
  ℕ, suc, ◌<◌, Bool, true, false, Option, none, some, List, [], ◌∷◌, ◌++◌, Map, ◌≡◌, refl, sym,
  ◌||◌, set, member, if◌then◌else◌, ◌==◌, arith, member-append,
}
use tangram.Plan.Dag.{
  Dag, DagNode, Col, node_at, get_or_create_dag_node, add_out, add_in, add_edge, add_edges,
  add_dag_node, get_or_create_col, get_last_write, append_read, append_write, note, add_reads,
  add_writes,
}
use tangram.Plan.Dag.Build.{node_at-set, node_at-get_or_create}
use tangram.Plan.Dag.Forward.{
  IsForward, WrittenBelow, AllBelow, Distinct, add_reads-WrittenBelow, add_writes-WrittenBelow,
  member-note, col_at-set,
}

-- What an edge does to the node `k`.
abbrev touched : ℕ → ℕ → ℕ → DagNode → DagNode
touched src dst k n =
    let n' = if src == k then add_out n dst else n in if dst == k then add_in n' src else n'

pub node_at-add_edge :
    (k src dst : ℕ) (nodes : Map DagNode)
    → node_at k (add_edge src dst nodes) ≡ touched src dst k (node_at k nodes)
unfolding add_edge
node_at-add_edge k src dst nodes =
    let made = get_or_create_dag_node dst (get_or_create_dag_node src nodes) in
    let out = set src (add_out (node_at src made) dst) made in
    ground (
      arith,
      node_at-set k dst (add_in (node_at dst out) src) out,
      node_at-set k src (add_out (node_at src made) dst) made,
      node_at-set dst src (add_out (node_at src made) dst) made,
      node_at-get_or_create k dst (get_or_create_dag_node src nodes),
      node_at-get_or_create k src nodes,
    )

add_edge-IsForward :
    (src dst : ℕ) (nodes : Map DagNode)
    → src < dst
    → IsForward nodes
    → IsForward (add_edge src dst nodes)
unfolding add_out add_in member
add_edge-IsForward src dst nodes lt f k c h = ground (
  arith,
  f k c,
  node_at-add_edge k src dst nodes,
  member-append c (node_at k nodes).out (dst ∷ []),
)

add_edges-IsForward :
    (ds : List ℕ) (id : ℕ) (nodes : Map DagNode)
    → AllBelow id ds
    → IsForward nodes
    → IsForward (add_edges ds id nodes)
unfolding add_edges member
add_edges-IsForward [] id nodes b f = f
add_edges-IsForward (d ∷ ds) id nodes b f =
    add_edges-IsForward ds id _ (λ p h. b p (ground arith))
      (add_edge-IsForward d id nodes (b d (ground arith)) f)

-- If every plan that writes a collection comes before plan `id`, which writes no collection twice, and every
-- edge leads to a later plan, then both hold again after `id` is added, for the next id.
pub add_dag_node-IsForward :
    (id : ℕ) (read write : List ℕ) (d : Dag)
    → Distinct write
    → WrittenBelow id d.cols
    → IsForward d.nodes
    → let d' = add_dag_node id read write d in IsForward d'.nodes × WrittenBelow (suc id) d'.cols
unfolding add_dag_node
add_dag_node-IsForward id read write d u w f =
    let from = add_reads id read ([], d.cols) in
    let r = add_reads-WrittenBelow id read [] d.cols (λ p h. unfold member in cc) w in
    let s =
      add_writes-WrittenBelow id write from.0 from.1 u r.0 (λ c p _. r.1 c p)
        (λ c p h. omega (arith, r.1 c p h)) in
    (
      add_edges-IsForward (add_writes id write from).0 id _ s.0
          (λ k c h. f k c (rw (← node_at-get_or_create k id d.nodes) h)),
      s.1,
    )

ins-add_edges :
    (ds : List ℕ) (id : ℕ) (nodes : Map DagNode)
    → (node_at id (add_edges ds id nodes)).ins ≡ (node_at id nodes).ins ++ ds
unfolding add_edges add_in add_out
ins-add_edges [] id nodes = sym (append-nil _)
ins-add_edges (d ∷ ds) id nodes = ground (
  arith,
  ins-add_edges ds id (add_edge d id nodes),
  node_at-add_edge id d id nodes,
  append_assoc (node_at id nodes).ins (d ∷ []) ds,
)

abbrev is_id : ℕ → Option ℕ → Bool
is_id p none = false
is_id p (some q) = q == p

-- Whether `p` is the last writer of one of the collections.
unfoldable pub wrote_last : ℕ → List ℕ → Map Col → Bool
wrote_last p [] cols = false
wrote_last p (c ∷ cs) cols =
    is_id p (get_last_write (get_or_create_col c cols)) || wrote_last p cs cols

wrote_last-append :
    (p : ℕ) (cs cs' : List ℕ) (cols : Map Col)
    → wrote_last p (cs ++ cs') cols ≡ (wrote_last p cs cols || wrote_last p cs' cols)
unfolding wrote_last
wrote_last-append p [] cs' cols = refl
wrote_last-append p (c ∷ cs) cs' cols = ground (arith, wrote_last-append p cs cs' cols)

-- Two maps of collections that agree on the last writers of `cs`.
abbrev SameWriters : List ℕ → Map Col → Map Col → Type 0
SameWriters cs cols cols' =
    (c : ℕ)
    → member c cs ≡ true
    → get_last_write (get_or_create_col c cols) ≡ get_last_write (get_or_create_col c cols')

wrote_last-SameWriters :
    (p : ℕ) (cs : List ℕ) (cols cols' : Map Col)
    → SameWriters cs cols cols'
    → wrote_last p cs cols ≡ wrote_last p cs cols'
unfolding wrote_last member
wrote_last-SameWriters p [] cols cols' h = refl
wrote_last-SameWriters p (c ∷ cs) cols cols' h =
    rw (h c (ground arith), wrote_last-SameWriters p cs cols cols' (λ j m. h j (ground arith)))

member-add_reads :
    (p id : ℕ) (cs deps : List ℕ) (cols : Map Col)
    → member p (add_reads id cs (deps, cols)).0 ≡ (member p deps || wrote_last p cs cols)
unfolding add_reads wrote_last append_read
member-add_reads p id [] deps cols = ground arith
member-add_reads p id (c ∷ cs) deps cols =
    let col = get_or_create_col c cols in
    let cols' = set c (append_read col id) cols in
    ground (
      arith,
      member-add_reads p id cs (note (get_last_write col) deps) cols',
      member-note p (get_last_write col) deps,
      wrote_last-SameWriters p cs cols' cols (λ j _.
          unfold get_last_write in ground (arith, col_at-set j c (append_read col id) cols)),
    )

pub add_reads-SameWriters :
    (id : ℕ) (cs deps : List ℕ) (cols : Map Col) (j : ℕ)
    → get_last_write (get_or_create_col j (add_reads id cs (deps, cols)).1)
      ≡ get_last_write (get_or_create_col j cols)
unfolding add_reads append_read get_last_write
add_reads-SameWriters id [] deps cols j = refl
add_reads-SameWriters id (c ∷ cs) deps cols j =
    let col = get_or_create_col c cols in
    ground (
      arith,
      add_reads-SameWriters id cs (note (get_last_write col) deps) (set c (append_read col id) cols)
          j,
      col_at-set j c (append_read col id) cols,
    )

member-add_writes :
    (p id : ℕ) (cs deps : List ℕ) (cols : Map Col)
    → Distinct cs
    → member p (add_writes id cs (deps, cols)).0 ≡ (member p deps || wrote_last p cs cols)
unfolding add_writes wrote_last append_write
member-add_writes p id [] deps cols u = ground arith
member-add_writes p id (c ∷ cs) deps cols u =
    let col = get_or_create_col c cols in
    let cols' = set c (append_write col id) cols in
    ground (
      arith,
      member-add_writes p id cs (note (get_last_write col) deps) cols' u.1,
      member-note p (get_last_write col) deps,
      wrote_last-SameWriters p cs cols' cols
          (λ j m. ground (arith, u.0, col_at-set j c (append_write col id) cols)),
    )

-- A new plan that writes no collection twice gets edges from exactly the last writers of the collections that
-- it reads or writes.
pub add_dag_node-ins :
    (p id : ℕ) (read write : List ℕ) (d : Dag)
    → Distinct write
    → (node_at id d.nodes).ins ≡ []
    → member p (node_at id (add_dag_node id read write d).nodes).ins
      ≡ wrote_last p (read ++ write) d.cols
unfolding add_dag_node member
add_dag_node-ins p id read write d u fresh =
    let from = add_reads id read ([], d.cols) in
    ground (
      arith,
      ins-add_edges (add_writes id write from).0 id (get_or_create_dag_node id d.nodes),
      node_at-get_or_create id id d.nodes,
      member-add_writes p id write from.0 from.1 u,
      member-add_reads p id read [] d.cols,
      wrote_last-append p read write d.cols,
      wrote_last-SameWriters p write from.1 d.cols
          (λ j _. add_reads-SameWriters id read [] d.cols j),
    )
