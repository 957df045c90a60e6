-- ===== src/Scheduler/Tracker/Minimum.antt =====
-- The version of a node, as core/scheduler/control_manager.cpp keeps it, is the least of its partitions' versions.
use tangram.Base.{
  ℕ, ◌+◌, ◌≤◌, ◌<◌, true, ◌&&◌, Option, none, some, List, Map, ◌≡◌, lookup, get, set, has,
  get_elem?, ltb, length, IsSorted, sum-set_old, sum-set_new, sum-change, write_at,
  get_elem?-write_at, lt-length, sum_le, sum_pos, arith, ◌==◌, if◌then◌else◌,
}
use tangram.Scheduler.Tracker.{Tracker, is_at, count_parts}

pub record IsTracked (part_to_node : List ℕ) (t : Tracker) : Type 0 where
  pub sorted : IsSorted t.part_versions
  pub nodes_sorted : IsSorted t.node_versions
  pub parts : (p : ℕ) → has p t.part_versions ≡ ltb p (length part_to_node)
  pub placed : (p n : ℕ) → get_elem? part_to_node p ≡ some n → has n t.node_versions ≡ true
  pub low :
      (p n : ℕ)
      → get_elem? part_to_node p ≡ some n
      → get 0 n t.node_versions ≤ get 0 p t.part_versions
  pub counted :
      (n : ℕ)
      → get 0 n t.node_count ≡ count_parts part_to_node n (get 0 n t.node_versions) t.part_versions
  pub reached : (p n : ℕ) → get_elem? part_to_node p ≡ some n → 0 < get 0 n t.node_count

module _ (part_to_node : List ℕ) where
  -- Writing the version of a partition moves the counts of its node only.
  pub count_parts-set :
      (n v p old new : ℕ) (parts : Map ℕ)
      → IsSorted parts
      → lookup p parts ≡ some old
      → count_parts part_to_node n v (set p new parts)
          + (if is_at (get_elem? part_to_node p) n && old == v then 1 else 0)
        ≡ count_parts part_to_node n v parts
          + (if is_at (get_elem? part_to_node p) n && new == v then 1 else 0)
  unfolding count_parts
  count_parts-set n v p old new parts s e = sum-set_old _ 0 p new old parts s e

  pub count_parts-set_new :
      (n v p w : ℕ) (parts : Map ℕ)
      → lookup p parts ≡ none
      → count_parts part_to_node n v (set p w parts)
        ≡ (if is_at (get_elem? part_to_node p) n && w == v then 1 else 0)
          + count_parts part_to_node n v parts
  unfolding count_parts
  count_parts-set_new n v p w parts e = sum-set_new _ p w parts e

  -- A partition at the version counts.
  pub count_parts-pos :
      (n p v : ℕ) (parts : Map ℕ)
      → get_elem? part_to_node p ≡ some n
      → lookup p parts ≡ some v
      → 1 ≤ count_parts part_to_node n v parts
  unfolding count_parts
  count_parts-pos n p v parts here e = ground (
    arith,
    sum_le (λ p w. if is_at (get_elem? part_to_node p) n && w == v then 1 else 0) p v parts e,
  )

  -- If some partition counts, there is one.
  pub count_parts-some :
      (n v : ℕ) (parts : Map ℕ)
      → IsSorted parts
      → 0 < count_parts part_to_node n v parts
      → (p : ℕ) × (get_elem? part_to_node p ≡ some n) × (lookup p parts ≡ some v)
  unfolding count_parts
  count_parts-some n v parts s h =
      let (p, w, e, pos) =
        sum_pos (λ p w. if is_at (get_elem? part_to_node p) n && w == v then 1 else 0) 0 parts s
          h in
      (p, is_at_some (get_elem? part_to_node p) (ground arith), ground arith)
    where
      is_at_some : (o : Option ℕ) → is_at o n ≡ true → o ≡ some n
      is_at_some none h = cc
      is_at_some (some m) h = ground arith

-- A partition that moves to another node is counted there.
pub count_parts-write_at :
    (nodes : List ℕ) (p from to n v w : ℕ) (parts : Map ℕ)
    → IsSorted parts
    → get_elem? nodes p ≡ some from
    → lookup p parts ≡ some w
    → count_parts (write_at nodes p to) n v parts + (if from == n && w == v then 1 else 0)
      ≡ count_parts nodes n v parts + (if to == n && w == v then 1 else 0)
unfolding count_parts
count_parts-write_at nodes p from to n v w parts s here e =
    let there = λ (j : ℕ). get_elem?-write_at nodes p j to (lt-length nodes p here) in
    ground (
      arith,
      here,
      there p,
      sum-change (λ q x. if is_at (get_elem? nodes q) n && x == v then 1 else 0)
          (λ q x. if is_at (get_elem? (write_at nodes p to) q) n && x == v then 1 else 0) 0 p w
          parts s e (λ j x ne. ground (arith, there j)),
    )
