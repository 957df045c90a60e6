-- ===== src/Examples/Versions.antt =====
-- Three update partitions on two nodes: node 1 holds partitions 0 and 2, and node 2 holds partition 1
-- (core/scheduler/control_manager.cpp).
use tangram.Base.{
  ℕ, zero, suc, ◌+◌, Bool, none, some, List, [], ◌∷◌, ◌≡◌, refl, inl, lookup, get, set, has,
  write_at, member, arith,
}
use tangram.Plan.Spec.{MapJoinSpec, map_join, get_map_join_spec}
use tangram.Scheduler.Elem.{start_migrate, to_all_controllers, ControllerMsg, Flag, Effect}
use tangram.Scheduler.CollectionStatus.{no_status}
use tangram.Scheduler.Tracker.{Tracker, advance_part, init_tracker, init_nodes, init_parts}
use tangram.Scheduler.Tracker.Minimum.{IsTracked}
use tangram.Scheduler.Tracker.Advance.{Advanced, advance_part-Advanced}
use tangram.Scheduler.Tracker.Start.{no_tracker, IsPlaced, init_tracker-IsTracked}
use tangram.Scheduler.ControlManager.{
  Control, no_plan, map_join_spec, part_to_node, handle_update_join_version,
}
use tangram.Scheduler.ControlManager.Barrier.{IsBarrier, News, handle_update_join_version-IsBarrier}
use tangram.Scheduler.ControlManager.Migration.Moved.{migrate_one-IsBarrier}
use tangram.Scheduler.ControlManager.Migration.{migrate_one, migrate_meta, enter_map, leave_map}
use tangram.Scheduler.ControlManager.Migration.Miscount.{enter_map-miscount}

abbrev nodes : List ℕ
nodes = 1 ∷ 2 ∷ []

abbrev placement : List ℕ
placement = 1 ∷ 2 ∷ 1 ∷ []

placement-IsPlaced : IsPlaced nodes placement
unfolding member
placement-IsPlaced zero n h = ground arith
placement-IsPlaced (suc zero) n h = ground arith
placement-IsPlaced (suc (suc zero)) n h = ground arith
placement-IsPlaced (suc (suc (suc p))) n h = cc

unfoldable versions_runs : Unit {0}
unfolding init_tracker init_nodes init_parts lookup get set has
versions_runs = tt

abbrev start : Tracker
start = init_tracker nodes placement no_tracker

start-IsTracked : IsTracked placement start
start-IsTracked = (init_tracker-IsTracked nodes placement placement-IsPlaced).0

-- Partition 1 is the only one of node 2, which goes on.
advance_part-Advanced_example :
    (t' : Tracker) × (went_on : Bool) × (advance_part placement 1
        (get 0 1 start.part_versions + 1)
        start
      ≡ some (t', went_on))
    × Advanced placement start 1 2 refl start-IsTracked t' went_on
advance_part-Advanced_example = advance_part-Advanced placement start 1 2 refl start-IsTracked

enter_map-miscount_example :
    ¬ IsTracked
      (write_at placement 0 2)
      (enter_map 0 2 (leave_map (write_at placement 0 2) 1 0 start))
unfolding versions_runs
enter_map-miscount_example =
    enter_map-miscount placement 0 1 2 start start-IsTracked refl (omega arith) (omega arith) refl

abbrev spec : MapJoinSpec
spec = record {
  map_collection_id = 7;
  update_collection_id = 8;
  num_iter = 5;
  staleness = 0;
  checkpoint_interval = 0;
  checkpoint_path = none;
}

abbrev running : Control
running = record {
  elem = record { nodes = nodes; collection_map = (7, 1 ∷ []) ∷ (8, placement) ∷ [] };
  status = no_status;
  plan = record no_plan {
    spec = some (record { id = 3; spec = map_join spec });
    expected_versions = 5;
    update = start;
  };
}

abbrev news : ControllerMsg
news = record { flag = Flag.join; version = 1; node_id = 2; plan_id = 3; part_id = 1 }

running-IsBarrier : IsBarrier placement 0 start
unfolding versions_runs
running-IsBarrier = record {
  tracked = start-IsTracked;
  floor = λ p h. omega arith;
  reached = (0, refl);
}

running-spec : map_join_spec running ≡ some spec
unfolding map_join_spec get_map_join_spec
running-spec = refl

running-placement : part_to_node 8 running ≡ some placement
unfolding part_to_node lookup
running-placement = refl

next_is_1 : 1 ≡ get 0 1 start.part_versions + 1
unfolding versions_runs
next_is_1 = refl

handle_update_join_version-IsBarrier_example :
    (c' : Control) × (effects : List Effect) × (handle_update_join_version news running
      ≡ some (c', effects))
    × IsBarrier placement c'.plan.versions c'.plan.update
    × (c'.plan.update.part_versions ≡ set 1 1 start.part_versions)
    × News 3 running c' effects
handle_update_join_version-IsBarrier_example =
    handle_update_join_version-IsBarrier news running spec placement 2 running-spec (inl refl)
      running-placement refl next_is_1 running-IsBarrier

-- Partition 0 moves from node 1 to node 2.
migrate_one-IsBarrier_example :
    (c' : Control) × (migrate_one 3 spec (1, 2, 0) running
      ≡ some (
        c',
        to_all_controllers 3
              (start_migrate (migrate_meta 3 8 running (1, 2, 0)) (write_at placement 0 2))
            ∷ [],
      ))
    × (part_to_node 8 c' ≡ some (write_at placement 0 2))
    × (c'.plan.versions ≡ 0)
    × IsBarrier (write_at placement 0 2) 0 c'.plan.update
unfolding versions_runs
migrate_one-IsBarrier_example =
    migrate_one-IsBarrier 3 running spec placement 0 1 2 running-placement running-IsBarrier refl
      (omega arith) refl refl (omega arith)
      (λ q. omega (arith, (init_tracker-IsTracked nodes placement placement-IsPlaced).1 q))
