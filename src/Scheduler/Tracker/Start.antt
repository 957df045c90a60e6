-- ===== src/Scheduler/Tracker/Start.antt =====
-- `ControlManager::Init` of core/scheduler/control_manager.cpp starts the bookkeeping.
use tangram.Base.{
  has-false, ℕ, zero, suc, ◌+◌, ◌<◌, true, ◌||◌, none, some, List, [], ◌∷◌, Map, ◌≡◌, refl, ap, ◌∙◌,
  lookup, get, set, has, get_elem?, ltb, length, IsSorted, get-set, has-set, arith, if◌then◌else◌,
  Above-set, member, count,
}
use tangram.Scheduler.Tracker.{Tracker, count_parts, init_nodes, init_parts, init_tracker}
use tangram.Scheduler.Tracker.Minimum.{IsTracked, count_parts-set_new}

get-init_nodes :
    (k : ℕ) (nodes : List ℕ) (m : Map ℕ)
    → get 0 k (init_nodes nodes m) ≡ (if member k nodes then 0 else get 0 k m)
unfolding init_nodes member
get-init_nodes k [] m = refl
get-init_nodes k (n ∷ ns) m = ground (arith, get-init_nodes k ns (set n 0 m), get-set 0 k n 0 m)

has-init_nodes :
    (k : ℕ) (nodes : List ℕ) (m : Map ℕ) → has k (init_nodes nodes m) ≡ (member k nodes || has k m)
unfolding init_nodes member
has-init_nodes k [] m = refl
has-init_nodes k (n ∷ ns) m = ground (arith, has-init_nodes k ns (set n 0 m), has-set k n 0 m)

-- After `i` partitions: they stand at 0, and each node counts those that it holds.
record IsFilled (i : ℕ) (t : Tracker) : Type 0 where
  sorted : IsSorted t.part_versions
  parts : (p : ℕ) → has p t.part_versions ≡ ltb p i
  zeros : (p : ℕ) → get 0 p t.part_versions ≡ 0

-- `init_parts` adds to the count of a node as often as the node stands in the list.
get-init_parts :
    (i : ℕ) (ns : List ℕ) (t : Tracker) (k : ℕ)
    → get 0 k (init_parts i ns t).node_count ≡ get 0 k t.node_count + count k ns
unfolding init_parts count
get-init_parts i [] t k = omega arith
get-init_parts i (n ∷ ns) t k = ground (
  arith,
  get-init_parts (suc i) ns
      (record t {
        part_versions = set i 0 t.part_versions;
        node_count = set n (get 0 n t.node_count + 1) t.node_count;
      })
      k,
  get-set 0 k n (get 0 n t.node_count + 1) t.node_count,
)

nodes-init_parts :
    (i : ℕ) (ns : List ℕ) (t : Tracker) → (init_parts i ns t).node_versions ≡ t.node_versions
unfolding init_parts
nodes-init_parts i [] t = refl
nodes-init_parts i (n ∷ ns) t = nodes-init_parts (suc i) ns _

init_parts-IsFilled :
    (i : ℕ) (ns : List ℕ) (t : Tracker)
    → IsFilled i t
    → IsFilled (i + length ns) (init_parts i ns t)
unfolding init_parts
init_parts-IsFilled i [] t f = record {
  sorted = f.sorted;
  parts = λ p. ground (arith, f.parts p);
  zeros = f.zeros;
}
init_parts-IsFilled i (n ∷ ns) t f =
    let t' : Tracker = record t {
      part_versions = set i 0 t.part_versions;
      node_count = set n (get 0 n t.node_count + 1) t.node_count;
    } in
    let r = init_parts-IsFilled (suc i) ns t' (record {
      sorted = Above-set 0 i 0 t.part_versions (omega arith) f.sorted;
      parts = λ p. ground (arith, has-set p i 0 t.part_versions, f.parts p);
      zeros = λ p. ground (arith, get-set 0 p i 0 t.part_versions, f.zeros p);
    }) in
    record { sorted = r.sorted; parts = λ p. ground (arith, r.parts p); zeros = r.zeros }

-- The partitions of a node that stand at 0 after the loop are those that the vector names.
count-init_parts :
    (all : List ℕ) (n i : ℕ) (ns : List ℕ) (t : Tracker)
    → ((j : ℕ) → get_elem? all (i + j) ≡ get_elem? ns j)
    → IsFilled i t
    → count_parts all n 0 (init_parts i ns t).part_versions
      ≡ count_parts all n 0 t.part_versions + count n ns
unfolding init_parts count
count-init_parts all n i [] t h f = omega arith
count-init_parts all n i (m ∷ ns) t h f =
    let t' : Tracker = record t {
      part_versions = set i 0 t.part_versions;
      node_count = set m (get 0 m t.node_count + 1) t.node_count;
    } in
    ground (
      arith,
      count-init_parts all n (suc i) ns t'
          (λ j. rw (← h (suc j)) (ap (get_elem? all) (omega arith)))
          (record {
            sorted = Above-set 0 i 0 t.part_versions (omega arith) f.sorted;
            parts = λ p. ground (arith, has-set p i 0 t.part_versions, f.parts p);
            zeros = λ p. ground (arith, get-set 0 p i 0 t.part_versions, f.zeros p);
          }),
      count_parts-set_new all n 0 i 0 t.part_versions (absent_above i t f),
      here,
    )
  where
    here : get_elem? all i ≡ some m
    here = ap (get_elem? all) (omega arith) ∙ h 0

    absent_above : (i : ℕ) (t : Tracker) → IsFilled i t → lookup i t.part_versions ≡ none
    absent_above i t f = has-false i t.part_versions (ground (arith, f.parts i))

count_elem : (p : ℕ) (ns : List ℕ) {n : ℕ} → get_elem? ns p ≡ some n → 0 < count n ns
unfolding count
count_elem p [] h = cc
count_elem zero (x ∷ xs) h = ground arith
count_elem (suc p) (x ∷ xs) h = ground (arith, count_elem p xs h)

Above-init_nodes : (nodes : List ℕ) (m : Map ℕ) → IsSorted m → IsSorted (init_nodes nodes m)
unfolding init_nodes
Above-init_nodes [] m s = s
Above-init_nodes (n ∷ ns) m s = Above-init_nodes ns _ (Above-set 0 n 0 m (omega arith) s)

started :
    (versions counts : Map ℕ)
    → IsFilled 0 (record { part_versions = []; node_versions = versions; node_count = counts })
unfolding has get lookup
started versions counts = record { sorted = tt; parts = λ p. ground arith; zeros = λ p. refl }

get-init_nodes_nil : (n : ℕ) (nodes : List ℕ) → get 0 n (init_nodes nodes []) ≡ 0
unfolding get lookup
get-init_nodes_nil n nodes = ground (arith, get-init_nodes n nodes [])

count_parts_nil : (all : List ℕ) (n c : ℕ) → count_parts all n 0 [] + c ≡ c
unfolding count_parts
count_parts_nil all n c = omega arith

abbrev pub no_tracker : Tracker
no_tracker = record { part_versions = []; node_versions = []; node_count = [] }

-- Every node that holds a partition is one of the nodes.
abbrev pub IsPlaced : List ℕ → List ℕ → Type 0
IsPlaced nodes part_to_node = (p n : ℕ) → get_elem? part_to_node p ≡ some n → member n nodes ≡ true

-- If every partition stands on one of the nodes, then Init starts all partitions and nodes at version 0 with
-- exact bookkeeping: each node counts all of its partitions.
pub init_tracker-IsTracked :
    (nodes part_to_node : List ℕ)
    → IsPlaced nodes part_to_node
    → let t = init_tracker nodes part_to_node no_tracker in
      IsTracked part_to_node t
      × ((p : ℕ) → get 0 p t.part_versions ≡ 0)
      × ((n : ℕ) → get 0 n t.node_versions ≡ 0)
unfolding init_tracker
init_tracker-IsTracked nodes part_to_node placed =
    let t0 : Tracker = record {
      part_versions = [];
      node_versions = init_nodes nodes [];
      node_count = init_nodes nodes [];
    } in
    let f = init_parts-IsFilled 0 part_to_node t0 (started _ _) in
    (
      record {
        sorted = f.sorted;
        nodes_sorted = rw (nodes-init_parts 0 part_to_node t0) (Above-init_nodes nodes [] tt);
        parts = λ p. ground (arith, f.parts p);
        placed = λ p n e.
            rw (nodes-init_parts 0 part_to_node t0)
              (ground (arith, has-init_nodes n nodes [], placed p n e));
        low = λ p n e. rw (nodes-init_parts 0 part_to_node t0) (omega (arith, version n));
        counted = λ n.
            rw (nodes-init_parts 0 part_to_node t0, version n)
              (omega (arith, get-init_parts 0 part_to_node t0 n, version n, filled n));
        reached = λ p n e.
            omega
              (arith, get-init_parts 0 part_to_node t0 n, version n, count_elem p part_to_node e);
      },
      f.zeros,
      λ n. rw (nodes-init_parts 0 part_to_node t0) (version n),
    )
  where
    version : (n : ℕ) → get 0 n (init_nodes nodes []) ≡ 0
    version n = get-init_nodes_nil n nodes

    filled :
        (n : ℕ)
        → count_parts part_to_node n 0
            (init_parts 0 part_to_node (record {
              part_versions = [];
              node_versions = init_nodes nodes [];
              node_count = init_nodes nodes [];
            })).part_versions
          ≡ count n part_to_node
    filled n =
        count-init_parts part_to_node n 0 part_to_node _
          (λ j. ap (get_elem? part_to_node) (omega arith)) (started _ _)
        ∙ count_parts_nil part_to_node n (count n part_to_node)
