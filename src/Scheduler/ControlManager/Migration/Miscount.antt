-- ===== src/Scheduler/ControlManager/Migration/Miscount.antt =====
-- Where core/scheduler/control_manager.cpp loses count of the map partitions of a node.
use tangram.Base.{
  ℕ, ◌+◌, ◌-◌, some, List, ◌≡◌, ◌≢◌, sym, subst, ◌∙◌, get, set, get_elem?, write_at, get-set,
  lookup-has, lt-length, arith,
}
use tangram.Scheduler.Tracker.{Tracker, count_parts}
use tangram.Scheduler.Tracker.Minimum.{IsTracked, count_parts-write_at}
use tangram.Scheduler.ControlManager.Migration.{
  recount, least_on, count_on, leave_map, enter, enter_map,
}

module _ (nodes : List ℕ) (p from to : ℕ) (t : Tracker) where
  abbrev left_map : Tracker
  left_map = leave_map (write_at nodes p to) from p t

  leave_map-parts : left_map.part_versions ≡ t.part_versions
  unfolding leave_map recount
  leave_map-parts = ground arith

  leave_map-others :
      (n : ℕ)
      → n ≢ from
      → (get 0 n left_map.node_count ≡ get 0 n t.node_count)
        × (get 0 n left_map.node_versions ≡ get 0 n t.node_versions)
  unfolding leave_map recount
  leave_map-others n ne =
      let c = get 0 from t.node_count - 1 in
      let m = least_on 0 (write_at nodes p to) from t.part_versions 1000000 in
      let k = count_on 0 (write_at nodes p to) from m t.part_versions in
      ground (
        arith,
        get-set 0 n from c t.node_count,
        get-set 0 n from k t.node_count,
        get-set 0 n from m t.node_versions,
      )

enter_map-level :
    (p to : ℕ) (t : Tracker)
    → get 0 p t.part_versions ≡ get 0 to t.node_versions
    → enter_map p to t ≡ record t { node_count = set p (get 0 p t.node_count + 1) t.node_count }
unfolding enter_map enter
enter_map-level p to t level = ground arith

-- If the bookkeeping of the map partitions is exact and a map partition moves to another node that stands at
-- the partition's version, then the bookkeeping is not exact afterwards, unless the partition's id happens to
-- be the node's id: the code increments the count under the partition's id.
pub enter_map-miscount :
    (nodes : List ℕ) (p from to : ℕ) (t : Tracker)
    → IsTracked nodes t
    → get_elem? nodes p ≡ some from
    → from ≢ to
    → p ≢ to
    → get 0 p t.part_versions ≡ get 0 to t.node_versions
    → ¬ IsTracked (write_at nodes p to) (enter_map p to (leave_map (write_at nodes p to) from p t))
enter_map-miscount nodes p from to t i here away other level bad =
    let left = left_map nodes p from to t in
    let parts = leave_map-parts nodes p from to t in
    let same = leave_map-others nodes p from to t to (λ e. away (sym e)) in
    let e = enter_map-level p to left (rw (parts, same.1) level) in
    let v = get 0 to t.node_versions in
    let wrong : get 0 to (set p (get 0 p left.node_count + 1) left.node_count)
        ≡ count_parts (write_at nodes p to) to (get 0 to left.node_versions) left.part_versions =
      subst
        (λ x.
          get 0 to x.node_count
          ≡ count_parts (write_at nodes p to) to (get 0 to x.node_versions) x.part_versions)
        e (bad.counted to) in
    let found = lookup-has 0 p t.part_versions (i.parts p ∙ lt-length nodes p here) in
    ground (
      arith,
      (rw (parts, same.1) at wrong),
      get-set 0 to p (get 0 p left.node_count + 1) left.node_count,
      same.0,
      i.counted to,
      count_parts-write_at nodes p from to to v (get 0 p t.part_versions) t.part_versions i.sorted
          here found,
    )
