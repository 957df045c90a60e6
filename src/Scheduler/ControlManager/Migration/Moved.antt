-- ===== src/Scheduler/ControlManager/Migration/Moved.antt =====
-- One round of BatchMigrate of core/scheduler/control_manager.cpp against the barrier of the plan.
use tangram.Base.{
  ℕ, ◌<◌, true, some, List, [], ◌∷◌, ◌≡◌, ◌≢◌, refl, sym, ap, ◌∙◌, lookup, get, set, has, get_elem?,
  write_at, arith, ◌==◌, if◌then◌else◌, lookup-set_self,
}
use tangram.Plan.Spec.{MapJoinSpec}
use tangram.Scheduler.Elem.{to_all_controllers, start_migrate}
use tangram.Scheduler.ControlManager.{Control, part_to_node}
use tangram.Scheduler.ControlManager.Barrier.{IsBarrier, node_floor}
use tangram.Scheduler.ControlManager.Migration.{
  migrate_one, leave_map, enter_update, enter_map, migrate_meta,
}
use tangram.Scheduler.ControlManager.Migration.Enter.{leave_enter-IsTracked}

-- If the plan's version is the least version of its update partitions with exact bookkeeping, then one round of
-- BatchMigrate, for a partition at the plan's version that moves to another node which holds counted
-- partitions, with versions below 1000000, fails no CHECK, writes the new placement and sends it to all
-- controllers, and the plan's version is still the least version of the update partitions with exact
-- bookkeeping for the new placement.
pub migrate_one-IsBarrier :
    (plan_id : ℕ) (c : Control) (s : MapJoinSpec) (nodes : List ℕ) (p from to : ℕ)
    → part_to_node s.update_collection_id c ≡ some nodes
    → IsBarrier nodes c.plan.versions c.plan.update
    → get_elem? nodes p ≡ some from
    → from ≢ to
    → get 0 p c.plan.update.part_versions ≡ c.plan.versions
    → has to c.plan.update.node_versions ≡ true
    → 0 < get 0 to c.plan.update.node_count
    → ((q : ℕ) → get 0 q c.plan.update.part_versions < 1000000)
    → let nodes' = write_at nodes p to in
      (c' : Control) × (migrate_one plan_id s (from, to, p) c
        ≡ some (
          c',
          to_all_controllers plan_id
                (start_migrate (migrate_meta plan_id s.update_collection_id c (from, to, p)) nodes')
              ∷ [],
        ))
      × (part_to_node s.update_collection_id c' ≡ some nodes')
      × (c'.plan.versions ≡ c.plan.versions)
      × IsBarrier nodes' c.plan.versions c'.plan.update
unfolding migrate_one part_to_node
migrate_one-IsBarrier plan_id c s nodes p from to placed b here away slow known holds small =
    let t = c.plan.update in
    let v = c.plan.versions in
    let nodes' = write_at nodes p to in
    let level : get 0 p t.part_versions ≡ get 0 from t.node_versions =
      omega (arith, slow, b.tracked.low p from here, node_floor nodes v t b p from here) in
    let (left, e, i, parts) =
      leave_enter-IsTracked nodes p from to t b.tracked here away level known holds small in
    let same = s.map_collection_id == s.update_collection_id in
    let map_left = if same then leave_map nodes' from p c.plan.map else c.plan.map in
    let map' = if same then enter_map p to map_left else map_left in
    let c' : Control = record c {
      elem = record (c.elem) {
        collection_map = set s.update_collection_id nodes' c.elem.collection_map;
      };
      plan = record (c.plan) { update = enter_update p to left; map = map' };
    } in
    (
      c',
      ground (arith, placed, here, slow, level, e),
      lookup-set_self s.update_collection_id nodes' c.elem.collection_map,
      refl,
      record {
        tracked = i;
        floor = λ q h. rw parts (b.floor q (ap (has q) (sym parts) ∙ h));
        reached = (let (q, e) = b.reached in (q, ap (lookup q) parts ∙ e));
      },
    )
