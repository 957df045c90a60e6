-- ===== src/Plan/Dag/Degrees.antt =====
-- The in-degrees of core/plan/dag.cpp count the edges from the plans that are left.
use tangram.Base.{
  ℕ, suc, ◌+◌, ◌-◌, ◌≤◌, true, some, List, [], ◌∷◌, Map, ◌≡◌, refl, ◌↔◌, lookup, set, get, erase,
  sum, count, member, IsSorted, Above, arith, get-set, get-erase, get-some, sum_le, sum-erase_old,
  Above-erase, lookup_below, lookup-erase, sum_zero,
}
use native.Mathlib.Decide.{ℕ_discrete}
use tangram.Plan.Dag.{DagNode, node_at, new_node}
use tangram.Plan.Dag.Visitor.{DagVisitor, front_of, get_front, decrement, decrement_all, finish}

-- The edges from `nodes` to `k`, each as often as it was added.
abbrev pub pending : ℕ → Map DagNode → ℕ
pending k nodes = sum (λ _ n. count k n.out) nodes

abbrev pub IsNamed : Map DagNode → Type 0
IsNamed nodes = (k : ℕ) (n : DagNode) → lookup k nodes ≡ some n → n.id ≡ k

pub record IsCounted (v : DagVisitor) : Type 0 where
  pub sorted : IsSorted v.nodes
  pub named : IsNamed v.nodes
  pub counted : (k : ℕ) → get 0 k v.indegrees ≡ pending k v.nodes

decrement_suc :
    (c : ℕ) (degrees : Map ℕ)
    → 1 ≤ get 0 c degrees
    → decrement c degrees ≡ some (set c (get 0 c degrees - 1) degrees)
unfolding decrement
decrement_suc c degrees h = ground arith

decrement_all-some :
    (cs : List ℕ) (degrees : Map ℕ)
    → ((k : ℕ) → count k cs ≤ get 0 k degrees)
    → (degrees' : Map ℕ) × (decrement_all cs degrees ≡ some degrees')
      × ((k : ℕ) → get 0 k degrees' + count k cs ≡ get 0 k degrees)
unfolding decrement_all count
decrement_all-some [] degrees h = (degrees, refl, λ k. omega arith)
decrement_all-some (c ∷ cs) degrees h =
    let next : Map ℕ = set c (get 0 c degrees - 1) degrees in
    let (degrees', e, left) =
      decrement_all-some cs next
        (λ k. ground (arith, h k, h c, get-set 0 k c (get 0 c degrees - 1) degrees)) in
    (
      degrees',
      rw (decrement_suc c degrees (ground (arith, h c))) e,
      λ k. ground (arith, left k, h k, h c, get-set 0 k c (get 0 c degrees - 1) degrees),
    )

IsNamed-erase : (id : ℕ) (nodes : Map DagNode) → IsNamed nodes → IsNamed (erase id nodes)
IsNamed-erase id nodes h k n e = ground (arith, h k n, lookup-erase k id nodes)

pending-erase :
    (k id : ℕ) (nodes : Map DagNode) (n : DagNode)
    → IsSorted nodes
    → lookup id nodes ≡ some n
    → pending k (erase id nodes) + count k n.out ≡ pending k nodes
pending-erase k id nodes n sorted e = sum-erase_old (λ _ n. count k n.out) 0 id n nodes sorted e

-- If the in-degrees of a visitor count the edges from the plans that are left, then finishing a plan of
-- in-degree 0 that is left fails no CHECK, removes that plan, and keeps the in-degrees exact.
pub finish-IsCounted :
    (id : ℕ) (v : DagVisitor) (n : DagNode)
    → IsCounted v
    → lookup id v.nodes ≡ some n
    → get 0 id v.indegrees ≡ 0
    → (v' : DagVisitor) × (finish id v ≡ some v') × (v'.nodes ≡ erase id v.nodes) × IsCounted v'
unfolding finish node_at
finish-IsCounted id v n c e z =
    let (degrees', done, left) =
      decrement_all-some n.out v.indegrees
        (λ k. omega (arith, c.counted k, sum_le (λ _ n. count k n.out) id n v.nodes e)) in
    let v' : DagVisitor = record v { nodes = erase id v.nodes; indegrees = erase id degrees' } in
    (
      v',
      ground (arith, get-some (new_node id) id v.nodes e, done),
      refl,
      record {
        sorted = Above-erase 0 id v.nodes c.sorted;
        named = IsNamed-erase id v.nodes c.named;
        counted = λ k. ground (
          arith,
          left k,
          c.counted k,
          c.counted id,
          get-erase 0 k id degrees',
          pending-erase k id v.nodes n c.sorted e,
        );
      },
    )

-- No plan of `nodes` has an edge to `k`.
abbrev pub IsFree : ℕ → Map DagNode → Type 0
IsFree k nodes = (m : ℕ) (n : DagNode) → lookup m nodes ≡ some n → count k n.out ≡ 0

pub IsFree-pending :
    (k : ℕ) (nodes : Map DagNode) → IsFree k nodes → IsSorted nodes → pending k nodes ≡ 0
IsFree-pending k nodes h s = sum_zero (λ _ n. count k n.out) nodes h 0 s

pub pending-IsFree : (k : ℕ) (nodes : Map DagNode) → pending k nodes ≡ 0 → IsFree k nodes
pending-IsFree k nodes h m n e = omega (arith, sum_le (λ _ n. count k n.out) m n nodes e)

front_of-member :
    (k b : ℕ) (degrees : Map ℕ) (nodes : Map DagNode)
    → Above b nodes
    → IsNamed nodes
    → (member k (front_of degrees nodes) ≡ true)
      ↔ ((n : DagNode) × (lookup k nodes ≡ some n) × (get 0 k degrees ≡ 0))
unfolding front_of member lookup
front_of-member k b degrees [] a named = (λ e. cc, λ (n, e, z). cc)
front_of-member k b degrees ((j, n) ∷ nodes) a named =
    let rest =
      front_of-member k (suc j) degrees nodes a.1
        (λ i m e. named i m (ground (arith, lookup_below i (suc j) nodes))) in
    let same = named j n (ground arith) in
    (
      λ e. elim (ℕ_discrete j k) [
        | yes hit ↦ (n, ground arith, ground (arith, lookup_below k (suc j) nodes, rest.0))
        | no miss ↦
            let (m, found, zero_degree) = rest.0 (ground arith) in (m, ground arith, zero_degree)
      ],
      λ (m, found, z). ground (arith, rest.1),
    )

-- If the in-degrees of a visitor count the edges from the plans that are left, then the front holds exactly the
-- plans that are left and to which no plan that is left has an edge.
pub get_front_iff :
    (k : ℕ) (v : DagVisitor)
    → IsCounted v
    → (member k (get_front v) ≡ true)
      ↔ ((n : DagNode) × (lookup k v.nodes ≡ some n) × IsFree k v.nodes)
unfolding get_front
get_front_iff k v c =
    let front = front_of-member k 0 v.indegrees v.nodes c.sorted c.named in
    (
      λ e.
          let (n, found, z) = front.0 e in
          (n, found, pending-IsFree k v.nodes (omega (arith, c.counted k))),
      λ (n, found, free).
          front.1 (n, found, omega (arith, c.counted k, IsFree-pending k v.nodes free c.sorted)),
    )
