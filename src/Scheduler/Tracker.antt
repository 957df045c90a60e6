-- ===== src/Scheduler/Tracker.antt =====
-- The version bookkeeping of core/scheduler/control_manager.cpp, which that file writes out for the map
-- partitions and for the update partitions: the version of each partition and of each node, and how many
-- partitions of a node stand at the node's version. Times, which are only logged, are left out.
pub mod Minimum
pub mod Advance
pub mod Start
use tangram.Base.{
  ℕ, zero, suc, ◌+◌, ◌-◌, Bool, true, false, ◌&&◌, Option, none, some, List, [], ◌∷◌, Map, get, set,
  touch, sum, get_elem?, ltb, ◌==◌, if◌then◌else◌, check, ◌>>=◌, ◌>>◌,
}

pub record Tracker : Type 0 where
  pub part_versions : Map ℕ
  pub node_versions : Map ℕ
  pub node_count : Map ℕ

abbrev pub is_at : Option ℕ → ℕ → Bool
is_at none n = false
is_at (some m) n = m == n

-- The loop that counts the partitions on node `n` at version `v`.
unfoldable pub count_parts : List ℕ → ℕ → ℕ → Map ℕ → ℕ
unfolding sum
count_parts part_to_node n v =
    sum (λ p w. if is_at (get_elem? part_to_node p) n && w == v then 1 else 0)

-- The node of the partition has no partition left at its version: it goes on to the next.
unfoldable pub next_version : List ℕ → ℕ → Tracker → Tracker
next_version part_to_node n t =
    let v = get 0 n t.node_versions + 1 in
    record t {
      node_versions = set n v t.node_versions;
      node_count = set n (count_parts part_to_node n v t.part_versions) t.node_count;
    }

-- A partition of the node has left the node's version: `node_count[node_id] -= 1` and what follows. The flag says
-- whether the node goes on.
unfoldable pub count_down : List ℕ → ℕ → Tracker → Option (Tracker × Bool)
unfolding next_version
count_down part_to_node n t = do
  check (ltb 0 (get 0 n t.node_count))
  let left = get 0 n t.node_count - 1
  if left == 0
      then some (next_version part_to_node n t, true)
      else some (record t { node_count = set n left t.node_count }, false)

-- What HandleUpdateMapVersion does, and HandleUpdateJoinVersion up to `try update version`. The code compares
-- with `version - 1`, and the first CHECK gives `version` > 0.
unfoldable pub advance_part : List ℕ → ℕ → ℕ → Tracker → Option (Tracker × Bool)
unfolding count_down
advance_part part_to_node part_id version t = do
  check (get 0 part_id t.part_versions + 1 == version)
  node_id ← get_elem? part_to_node part_id
  let moved = record t {
    part_versions = set part_id version t.part_versions;
    node_versions = touch 0 node_id t.node_versions;
  }
  if get 0 node_id moved.node_versions + 1 == version
      then count_down part_to_node node_id moved
      else some (moved, false)

-- The entries that `ControlManager::Init` makes for the nodes.
unfoldable pub init_nodes : List ℕ → Map ℕ → Map ℕ
init_nodes [] m = m
init_nodes (n ∷ ns) m = init_nodes ns (set n 0 m)

-- Its loop over the partitions from `i` on.
unfoldable pub init_parts : ℕ → List ℕ → Tracker → Tracker
init_parts i [] t = t
init_parts i (n ∷ ns) t = init_parts (suc i) ns (record t {
  part_versions = set i 0 t.part_versions;
  node_count = set n (get 0 n t.node_count + 1) t.node_count;
})

unfoldable pub init_tracker : List ℕ → List ℕ → Tracker → Tracker
unfolding init_nodes init_parts
init_tracker nodes part_to_node t = init_parts 0 part_to_node (record t {
  node_versions = init_nodes nodes t.node_versions;
  node_count = init_nodes nodes t.node_count;
})
