-- ===== src/Worker/PlanController/Setup.antt =====
-- core/worker/plan_controller.cpp: `Setup` and `StartPlan`, and `UpdateVersion` from the scheduler.
use tangram.Base.{
  ℕ, ◌+◌, ◌-◌, ◌==◌, ltb, Bool, true, false, not, ◌||◌, Option, some, none, List, [], ◌∷◌, ◌>>=◌,
  ◌>>◌, check, Map, lookup, set, erase, length,
}
use tangram.Worker.Elem.{report, Report}
use tangram.Worker.Partitions.{PartitionManager, get_parts, get_num_local_parts}
use tangram.Plan.Spec.{MapJoinSpec, SpecWrapper, Spec, map_join, map_with_join, text}
use tangram.Worker.PlanController.{PlanController, Result, send_one}
use tangram.Worker.PlanController.Run.{try_run_some_maps}

unfoldable pub get_num_parts : ℕ → Map (List ℕ) → Option ℕ
get_num_parts c m = do view ← lookup c m; some (length view)

-- Each of the ids with version 0.
unfoldable pub zero_versions : List ℕ → Map ℕ → Map ℕ
zero_versions [] m = m
zero_versions (p ∷ ps) m = zero_versions ps (set p 0 m)

-- The constructor: a plan controller before its `Setup`, which sets what is 0 here.
unfoldable pub new_plan_controller : ℕ → PartitionManager → Map (List ℕ) → PlanController
new_plan_controller node_id parts collections = record {
  node_id = node_id;
  plan_id = 0;
  map_collection_id = 0;
  update_collection_id = 0;
  fetch_collection_id = none;
  num_upstream_part = 0;
  num_update_part = 0;
  num_local_update_part = 0;
  num_local_map_part = 0;
  checkpoint_interval = 0;
  checkpoint_path = none;
  min_version = 0;
  staleness = 0;
  expected_num_iter = 0;
  map_versions = [];
  update_versions = [];
  update_tracker = [];
  update_tracker_size = [];
  pending_updates = [];
  running_maps = [];
  running_updates = [];
  running_fetches = [];
  waiting_updates = [];
  stream_store = [];
  flush_all_count = [];
  stop_updating = [];
  load_finished = [];
  buffered_requests = [];
  partitions = parts;
  collection_map = collections;
}

unfoldable pub set_up :
    (plan_id : ℕ) → MapJoinSpec → (up update : ℕ) → PlanController → PlanController
unfolding zero_versions
set_up plan_id p up update s = record s {
  plan_id = plan_id;
  map_collection_id = p.map_collection_id;
  update_collection_id = p.update_collection_id;
  num_upstream_part = up;
  num_update_part = update;
  num_local_update_part = get_num_local_parts p.update_collection_id s.partitions;
  num_local_map_part = get_num_local_parts p.map_collection_id s.partitions;
  checkpoint_interval = p.checkpoint_interval;
  checkpoint_path = elim (p.checkpoint_path) [ none ↦ none | some t ↦ some (text t) ];
  min_version = 0;
  staleness = p.staleness;
  expected_num_iter = p.num_iter;
  map_versions = zero_versions (get_parts p.map_collection_id s.partitions) [];
  update_versions = zero_versions (get_parts p.update_collection_id s.partitions) [];
  update_tracker = [];
  pending_updates = [];
  waiting_updates = [];
}

unfoldable pub has_checkpoint_path : MapJoinSpec → Bool
has_checkpoint_path p =
    let path : Bool = elim (p.checkpoint_path) [ none ↦ false | some _ ↦ true ] in
    p.checkpoint_interval == 0 || path

-- A checkpoint interval needs a path, and there is an iteration to run.
unfoldable pub setup_map_join : (plan_id : ℕ) → MapJoinSpec → PlanController → Result
unfolding get_num_parts set_up has_checkpoint_path
setup_map_join plan_id p s = do
  check (has_checkpoint_path p)
  up ← get_num_parts p.map_collection_id s.collection_map
  update ← get_num_parts p.update_collection_id s.collection_map
  check (not (p.num_iter == 0))
  send_one (report Report.setup) (set_up plan_id p up update s)

unfoldable pub setup_spec : Spec → (plan_id : ℕ) → PlanController → Result
unfolding setup_map_join
setup_spec (map_join p) id s = setup_map_join id p s
setup_spec (map_with_join p w) id s =
    setup_map_join id p (record s { fetch_collection_id = some w })
setup_spec _ id s = none

unfoldable pub setup : SpecWrapper → PlanController → Result
unfolding setup_spec
setup spec s = setup_spec spec.spec spec.id s

unfoldable pub start_plan : PlanController → Result
start_plan s = try_run_some_maps s

-- The tracker without `version`, for each partition.
unfoldable pub forget_version : ℕ → Map (Map (List ℕ)) → Map (Map (List ℕ))
forget_version v [] = []
forget_version v ((p, m) ∷ t) = (p, erase v m) ∷ forget_version v t

unfoldable pub update_version : ℕ → PlanController → Result
unfolding forget_version
update_version v s = do
  check (ltb v s.expected_num_iter)
  check (v == s.min_version + 1)
  try_run_some_maps
      (record s { min_version = v; update_tracker = forget_version (v - 1) s.update_tracker })
