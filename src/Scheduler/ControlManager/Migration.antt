-- ===== src/Scheduler/ControlManager/Migration.antt =====
-- Moving partitions between nodes: BatchMigrate, PreBatchMigrate, MigrateMapOnly and ReassignMap of
-- core/scheduler/control_manager.cpp. TryMigrate, which nothing calls, is left out.
pub mod Miscount
pub mod Recount
pub mod Leave
pub mod Enter
pub mod Moved
use tangram.Base.{
  ℕ, zero, suc, ◌+◌, ◌-◌, Bool, true, false, ◌&&◌, not, Option, none, some, List, [], ◌∷◌, ◌++◌,
  Map, lookup, get, set, has, get_elem?, write_at, length, ltb, ◌==◌, if◌then◌else◌, check, ◌>>=◌,
  ◌>>◌, map,
}
use tangram.Plan.Spec.{MapJoinSpec, Spec, SpecWrapper, map_with_join}
use tangram.Scheduler.CollectionStatus.{get_last_cp}
use tangram.Scheduler.Elem.{
  SchedulerElem, Effect, ControlCommand, MigrateMeta, Move, to_all_controllers, to_controller,
  load_checkpoint_partial, with_loaded,
}
use tangram.Scheduler.Tracker.{Tracker}
use tangram.Scheduler.ControlManager.{Control, PlanControl, Result, map_join_spec, part_to_node}

-- `new_min` over the partitions on node `n`, from partition `i` on.
unfoldable pub least_on : ℕ → List ℕ → ℕ → Map ℕ → ℕ → ℕ
least_on i [] n parts new_min = new_min
least_on i (k ∷ ks) n parts new_min =
    least_on (suc i) ks n parts
      (if k == n && ltb (get 0 i parts) new_min then get 0 i parts else new_min)

unfoldable pub count_on : ℕ → List ℕ → ℕ → ℕ → Map ℕ → ℕ
count_on i [] n v parts = 0
count_on i (k ∷ ks) n v parts =
    (if k == n && get 0 i parts == v then 1 else 0) + count_on (suc i) ks n v parts

-- The node's least version and its count, found anew. The search starts from 1000000.
unfoldable pub recount : List ℕ → ℕ → Tracker → Tracker
recount part_to_node n t =
    let new_min = least_on 0 part_to_node n t.part_versions 1000000 in
    record t {
      node_count = set n (count_on 0 part_to_node n new_min t.part_versions) t.node_count;
      node_versions = set n new_min t.node_versions;
    }

-- `update from_id`, after `part_to_node` has the new node.
unfoldable pub leave_update : List ℕ → ℕ → Tracker → Option Tracker
unfolding recount
leave_update part_to_node from_id t =
    let count = get 0 from_id t.node_count in
    if ltb 1 count
    then some (record t { node_count = set from_id (count - 1) t.node_count })
    else if count == 1
    then some (recount part_to_node from_id t)
    else none

unfoldable pub leave_map : List ℕ → ℕ → ℕ → Tracker → Tracker
unfolding recount
leave_map part_to_node from_id part_id t =
    let count = get 0 from_id t.node_count in
    let left =
      (if ltb 1 count
        then record t { node_count = set from_id (count - 1) t.node_count }
        else recount part_to_node from_id t) in
    if get 0 from_id t.node_versions == get 0 part_id t.part_versions then left else t

-- `update to_id`. The last argument is the key whose count the code increments.
unfoldable pub enter : ℕ → ℕ → ℕ → Tracker → Tracker
enter part_id to_id counted t =
    let version = get 0 part_id t.part_versions in
    if ltb version (get 0 to_id t.node_versions)
    then record t {
      node_count = set to_id 1 t.node_count;
      node_versions = set to_id version t.node_versions;
    }
    else if version == get 0 to_id t.node_versions
    then record t { node_count = set counted (get 0 counted t.node_count + 1) t.node_count }
    else t

unfoldable pub enter_update : ℕ → ℕ → Tracker → Tracker
unfolding enter
enter_update part_id to_id t = enter part_id to_id to_id t

-- `map_node_count_[plan_id][part_id] += 1`.
unfoldable pub enter_map : ℕ → ℕ → Tracker → Tracker
unfolding enter
enter_map part_id to_id t = enter part_id to_id part_id t

unfoldable pub migrate_meta : ℕ → ℕ → Control → Move → MigrateMeta
migrate_meta plan_id collection_id c (from_id, to_id, part_id) = record {
  plan_id = plan_id;
  collection_id = collection_id;
  partition_id = part_id;
  from_id = from_id;
  to_id = to_id;
  num_nodes = length c.elem.nodes;
}

-- One round of the loop of BatchMigrate.
unfoldable pub migrate_one : ℕ → MapJoinSpec → Move → Control → Result
unfolding part_to_node leave_update leave_map enter_update enter_map migrate_meta
migrate_one plan_id s (from_id, to_id, part_id) c = do
  nodes ← part_to_node s.update_collection_id c
  from ← get_elem? nodes part_id
  check (from == from_id)
  let nodes' = write_at nodes part_id to_id
  let t = c.plan.update
  check (get 0 part_id t.part_versions == c.plan.versions)
  check (get 0 part_id t.part_versions == get 0 from_id t.node_versions)
  left ← leave_update nodes' from_id t
  let same = s.map_collection_id == s.update_collection_id
  let map_left = (if same then leave_map nodes' from_id part_id c.plan.map else c.plan.map)
  let map' = (if same then enter_map part_id to_id map_left else map_left)
  some (
    record c {
      elem = record (c.elem) {
        collection_map = set s.update_collection_id nodes' c.elem.collection_map;
      };
      plan = record (c.plan) { update = enter_update part_id to_id left; map = map' };
    },
    to_all_controllers plan_id (
          ControlCommand.start_migrate
            (migrate_meta plan_id s.update_collection_id c (from_id, to_id, part_id)) nodes')
        ∷ [],
  )

unfoldable pub migrate_all : ℕ → MapJoinSpec → List Move → Control → Result
unfolding migrate_one
migrate_all plan_id s [] c = some (c, [])
migrate_all plan_id s (m ∷ ms) c = do
  one ← migrate_one plan_id s m c
  rest ← migrate_all plan_id s ms one.0
  some (rest.0, one.1 ++ rest.1)

unfoldable pub batch_migrate : ℕ → List Move → Control → Result
unfolding migrate_all map_join_spec
batch_migrate plan_id meta c = do s ← map_join_spec c; migrate_all plan_id s meta c

-- The moves of the `with` collection, which is co-allocated.
unfoldable pub move_with : List Move → List ℕ → Option (List ℕ)
move_with [] nodes = some nodes
move_with ((from_id, to_id, part_id) ∷ ms) nodes = do
  from ← get_elem? nodes part_id
  check (from_id == from)
  move_with ms (write_at nodes part_id to_id)

unfoldable pub pre_with : ℕ → List Move → ℕ → Control → Result
unfolding move_with get_last_cp part_to_node
pre_with plan_id meta with_id c = do
  nodes ← part_to_node with_id c
  url ← get_last_cp with_id c.status
  nodes' ← move_with meta nodes
  some (
    record c {
      elem = record (c.elem) { collection_map = set with_id nodes' c.elem.collection_map };
    },
    load_checkpoint_partial with_id url (map (λ (m : Move). m.2) meta)
          (with_loaded plan_id meta with_id)
        ∷ [],
  )

-- The `with` collection, where it has to move along.
unfoldable pub with_to_move : Spec → Option ℕ
with_to_move (map_with_join s w) =
    if s.map_collection_id == s.update_collection_id && not (s.map_collection_id == w)
    then some w
    else none
with_to_move _ = none

unfoldable pub move_with_part : Option ℕ → ℕ → List Move → Control → Result
unfolding pre_with
move_with_part none plan_id meta c = some (c, [])
move_with_part (some id) plan_id meta c = pre_with plan_id meta id c

unfoldable pub pre_batch_migrate : ℕ → List Move → Control → Result
unfolding batch_migrate move_with_part with_to_move
pre_batch_migrate plan_id meta c = do
  w ← c.plan.spec
  first ← move_with_part (with_to_move w.spec) plan_id meta c
  rest ← batch_migrate plan_id meta first.0
  some (rest.0, first.1 ++ rest.1)

unfoldable pub migrate_map_only : ℕ → ℕ → ℕ → ℕ → Control → Result
unfolding map_join_spec part_to_node migrate_meta
migrate_map_only plan_id from_id to_id part_id c = do
  check (has part_id c.plan.map.part_versions)
  s ← map_join_spec c
  nodes ← part_to_node s.map_collection_id c
  check (not (s.map_collection_id == s.update_collection_id))
  from ← get_elem? nodes part_id
  check (from == from_id)
  some (
    c,
    to_controller from_id plan_id (
          ControlCommand.start_migrate_map_only
            (migrate_meta plan_id s.map_collection_id c (from_id, to_id, part_id)) nodes)
        ∷ [],
  )

-- The partitions whose node has changed: part_id, from_id, to_id.
unfoldable pub reassignments : ℕ → List ℕ → List ℕ → List (ℕ × ℕ × ℕ)
reassignments i (old ∷ olds) (new ∷ news) =
    let rest = reassignments (suc i) olds news in if new == old then rest else (i, old, new) ∷ rest
reassignments i _ _ = []

-- A reassigned partition goes back to the plan's version.
unfoldable pub reassign_one : ℕ → ℕ × ℕ × ℕ → Tracker → Tracker
unfolding enter_map
reassign_one versions (part_id, from_id, to_id) t = enter_map part_id to_id (
    if get 0 part_id t.part_versions == versions
    then t
    else record t { part_versions = set part_id versions t.part_versions })

unfoldable pub reassign_all : ℕ → List (ℕ × ℕ × ℕ) → Tracker → Tracker × List (ℕ × ℕ × ℕ)
unfolding reassign_one
reassign_all versions [] t = (t, [])
reassign_all versions ((part_id, from_id, to_id) ∷ rs) t =
    let t' = reassign_one versions (part_id, from_id, to_id) t in
    let (t'', sent) = reassign_all versions rs t' in
    (t'', (to_id, part_id, get 0 part_id t'.part_versions) ∷ sent)

unfoldable pub reassign_map : ℕ → ℕ → Control → Result
unfolding map_join_spec part_to_node reassignments reassign_all
reassign_map plan_id collection_id c = do
  s ← map_join_spec c
  check (collection_id == s.map_collection_id)
  nodes ← part_to_node collection_id c
  check (length c.plan.cached_part_to_node == length nodes)
  let (map', sent) =
      reassign_all c.plan.versions (reassignments 0 c.plan.cached_part_to_node nodes) c.plan.map
  some (
    record c { plan = record (c.plan) { map = map'; cached_part_to_node = nodes } },
    to_all_controllers plan_id (ControlCommand.reassign_map sent) ∷ [],
  )
