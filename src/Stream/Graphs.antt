-- ===== src/Stream/Graphs.antt =====
-- core/plan/dag.hpp: the graph of a program as bytes.
use tangram.Base.{ℕ, ◌<◌, ◌≡◌, refl, some, List, [], ◌∷◌, length, Map, size, IsSorted, ◌>>=◌}
use tangram.Plan.Dag.{Dag, DagNode, Col}
use tangram.Stream.{
  SArrayBinStream, Out, In, out_number, in_number, out_vector, in_vector, out_map, in_map, int_size,
  len_size,
}
use tangram.Stream.Numbers.{bound}
use tangram.Stream.Trips.{
  Trip, Trip-read, then-Trip, number-Trip, vector-Trip, map-Trip, AllTrip, EntriesTrip,
}

unfoldable pub out_ints : Out (List ℕ)
unfolding out_vector out_number
out_ints xs s = out_vector (out_number int_size) xs s

unfoldable pub in_ints : In (List ℕ)
unfolding in_vector in_number
in_ints s = in_vector (in_number int_size) s

unfoldable pub out_node : Out DagNode
unfolding out_ints out_number
out_node n s = out_ints n.ins (out_ints n.out (out_number int_size n.id s))

unfoldable pub in_node : In DagNode
unfolding in_ints in_number
in_node s = do
  id ← in_number int_size s
  out ← in_ints id.1
  ins ← in_ints out.1
  some (record { id = id.0; out = out.0; ins = ins.0 }, ins.1)

unfoldable pub out_col : Out Col
unfolding out_ints out_number
out_col c s = out_ints c.write_queue (out_ints c.read_queue (out_number int_size c.id s))

unfoldable pub in_col : In Col
unfolding in_ints in_number
in_col s = do
  id ← in_number int_size s
  reads ← in_ints id.1
  writes ← in_ints reads.1
  some (record { id = id.0; read_queue = reads.0; write_queue = writes.0 }, writes.1)

unfoldable pub out_dag : Out Dag
unfolding out_map out_node out_col
out_dag d s = out_map out_col d.cols (out_map out_node d.nodes s)

unfoldable pub in_dag : In Dag
unfolding in_map in_node in_col
in_dag s = do
  nodes ← in_map in_node s
  cols ← in_map in_col nodes.1
  some (record { nodes = nodes.0; cols = cols.0 }, cols.1)

-- The numbers of a vector are of four bytes, and its length of eight.
abbrev pub AllFit : List ℕ → Type 0
AllFit [] = Unit
AllFit (x ∷ xs) = (x < bound int_size) × AllFit xs

pub record IntsFit (xs : List ℕ) : Type 0 where
  pub values : AllFit xs
  pub count : length xs < bound len_size

AllFit-AllTrip : (xs : List ℕ) → AllFit xs → AllTrip (out_number int_size) (in_number int_size) xs
AllFit-AllTrip [] h = tt
AllFit-AllTrip (x ∷ xs) h = (number-Trip int_size x h.0, AllFit-AllTrip xs h.1)

ints-Trip : (xs : List ℕ) → IntsFit xs → Trip (out_ints xs) in_ints xs
unfolding out_ints in_ints
ints-Trip xs h =
    vector-Trip (out_number int_size) (in_number int_size) xs (AllFit-AllTrip xs h.values) h.count

pub record NodeFits (n : DagNode) : Type 0 where
  pub id : n.id < bound int_size
  pub out : IntsFit n.out
  pub ins : IntsFit n.ins

pub record ColFits (c : Col) : Type 0 where
  pub id : c.id < bound int_size
  pub reads : IntsFit c.read_queue
  pub writes : IntsFit c.write_queue

-- Two vectors, one after the other.
lists-Trip {ℓ} :
    {A : Type ℓ} (make : List ℕ → List ℕ → A) (xs ys : List ℕ)
    → IntsFit xs
    → IntsFit ys
    → Trip
        (λ s. out_ints ys (out_ints xs s))
        (λ s. in_ints s >>= λ a. in_ints a.1 >>= λ b. some (make a.0 b.0, b.1))
        (make xs ys)
lists-Trip make xs ys h l =
    then-Trip (ints-Trip xs h) (ints-Trip ys l)
      (λ s. in_ints s >>= λ a. in_ints a.1 >>= λ b. some (make a.0 b.0, b.1)) (make xs ys)
      (λ t t1 t2 e1 e2. rw (e1, e2) refl)

node-Trip : (n : DagNode) → NodeFits n → Trip (out_node n) in_node n
unfolding out_node in_node
node-Trip n h =
    then-Trip (number-Trip int_size n.id h.id)
      (lists-Trip (λ xs ys. record { id = n.id; out = xs; ins = ys }) n.out n.ins h.out h.ins)
      in_node n (λ t t1 t2 e1 e2. rw e1 e2)

col-Trip : (c : Col) → ColFits c → Trip (out_col c) in_col c
unfolding out_col in_col
col-Trip c h =
    then-Trip (number-Trip int_size c.id h.id)
      (lists-Trip (λ xs ys. record { id = c.id; read_queue = xs; write_queue = ys }) c.read_queue
        c.write_queue h.reads h.writes)
      in_col c (λ t t1 t2 e1 e2. rw e1 e2)

-- A graph whose maps ascend, and whose ids, vectors and maps fit.
abbrev pub NodesFit : Map DagNode → Type 0
NodesFit [] = Unit
NodesFit ((k, n) ∷ m) = (k < bound int_size) × NodeFits n × NodesFit m

abbrev pub ColsFit : Map Col → Type 0
ColsFit [] = Unit
ColsFit ((k, c) ∷ m) = (k < bound int_size) × ColFits c × ColsFit m

NodesFit-EntriesTrip : (m : Map DagNode) → NodesFit m → EntriesTrip out_node in_node m
NodesFit-EntriesTrip [] h = tt
NodesFit-EntriesTrip ((k, n) ∷ m) h = (h.0, node-Trip n h.1, NodesFit-EntriesTrip m h.2)

ColsFit-EntriesTrip : (m : Map Col) → ColsFit m → EntriesTrip out_col in_col m
ColsFit-EntriesTrip [] h = tt
ColsFit-EntriesTrip ((k, c) ∷ m) h = (h.0, col-Trip c h.1, ColsFit-EntriesTrip m h.2)

pub record DagFits (d : Dag) : Type 0 where
  pub nodes_sorted : IsSorted d.nodes
  pub cols_sorted : IsSorted d.cols
  pub nodes : NodesFit d.nodes
  pub cols : ColsFit d.cols
  pub num_nodes : size d.nodes < bound len_size
  pub num_cols : size d.cols < bound len_size

pub dag-Trip : (d : Dag) → DagFits d → Trip (out_dag d) in_dag d
unfolding out_dag in_dag
dag-Trip d h =
    then-Trip
      (map-Trip out_node in_node d.nodes h.nodes_sorted (NodesFit-EntriesTrip d.nodes h.nodes)
        h.num_nodes)
      (map-Trip out_col in_col d.cols h.cols_sorted (ColsFit-EntriesTrip d.cols h.cols) h.num_cols)
      in_dag d (λ t t1 t2 e1 e2. rw (e1, e2) refl)

-- If the maps of a graph ascend, its ids and the elements of its vectors fit in four bytes and its sizes in
-- eight, then the graph that is written to a stream that has been read is read back from it as it was, and the
-- stream has then been read to its end.
pub in_dag-out_dag :
    (d : Dag) (s : SArrayBinStream)
    → DagFits d
    → s.front ≡ length s.buffer
    → (t : SArrayBinStream) × (in_dag (out_dag d s) ≡ some (d, t)) × (t.front ≡ length t.buffer)
in_dag-out_dag d s h e = Trip-read (out_dag d) in_dag d s (dag-Trip d h) e
