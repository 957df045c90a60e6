-- ===== src/Scheduler/ControlManager.antt =====
-- core/scheduler/control_manager.hpp and control_manager.cpp, compiled as the repository does: BGCP is false, and WITH_LB
-- and WITH_LB_JOIN are not defined. The maps of the class are keyed by plan: a `PlanControl` holds the
-- entries of one plan. Times, which are only logged, are left out.
pub mod Barrier
pub mod Migration
use tangram.Base.{
  ℕ, zero, suc, ◌+◌, ◌-◌, ◌/◌, ◌%◌, Bool, true, false, ◌&&◌, ◌||◌, not, Option, none, some, List,
  [], ◌∷◌, ◌++◌, Map, lookup, get, set, has, erase, insert, get_elem?, length, ltb, ◌==◌,
  if◌then◌else◌, check, ◌>>=◌, ◌>>◌,
}
use tangram.Plan.Spec.{
  Spec, SpecWrapper, MapJoinSpec, Url, map_join, map_with_join, get_map_join_spec,
}
use tangram.Scheduler.CollectionStatus.{CollectionStatus, add_cp, get_last_cp}
use tangram.Scheduler.Elem.{
  SchedulerElem, ControllerMsg, Flag, Effect, Callback, ControlCommand, MigrateMeta, Move,
  to_all_controllers, to_controller, call, load_checkpoint_partial, with_loaded,
}
use tangram.Scheduler.Tracker.{Tracker, advance_part, init_tracker}
use tangram.Scheduler.Tracker.Start.{no_tracker}

pub record PlanControl : Type 0 where
  pub spec : Option SpecWrapper
  pub versions : ℕ
  pub expected_versions : ℕ
  pub is_setup : List ℕ
  pub is_finished : List ℕ
  pub map : Tracker
  pub update : Tracker
  pub cp_count : Map (List ℕ)
  pub callback : Option Callback
  pub cached_part_to_node : List ℕ

abbrev pub no_plan : PlanControl
no_plan = record {
  spec = none;
  versions = 0;
  expected_versions = 0;
  is_setup = [];
  is_finished = [];
  map = no_tracker;
  update = no_tracker;
  cp_count = [];
  callback = none;
  cached_part_to_node = [];
}

-- One plan's entries, with what the manager shares with others.
pub record Control : Type 0 where
  pub elem : SchedulerElem
  pub status : CollectionStatus
  pub plan : PlanControl

abbrev pub Result : Type 0
Result = Option (Control × List Effect)

abbrev pub with_plan : Control → PlanControl → Control
with_plan c p = record c { plan = p }

-- `specs_[plan_id].GetMapJoinSpec()`, and the cast of the specification elsewhere.
unfoldable pub map_join_spec : Control → Option MapJoinSpec
map_join_spec c = do w ← c.plan.spec; get_map_join_spec w.spec

unfoldable pub part_to_node : ℕ → Control → Option (List ℕ)
part_to_node collection_id c = lookup collection_id c.elem.collection_map

-- The checkpoint that UpdateVersion adds.
unfoldable pub add_checkpoint : MapJoinSpec → ℕ → CollectionStatus → Option CollectionStatus
add_checkpoint s versions status =
    let added = (do
      path ← s.checkpoint_path
      some (
          add_cp s.update_collection_id (Url.cp (Url.text path) (versions / s.checkpoint_interval))
            status)) in
    if not (s.checkpoint_interval == 0) && versions % s.checkpoint_interval == 0
    then added
    else some status

unfoldable pub update_version : ℕ → Control → Result
unfolding map_join_spec
update_version plan_id c = do
  s ← map_join_spec c
  let versions = c.plan.versions + 1
  status ← add_checkpoint s versions c.status
  let command =
      (if versions == c.plan.expected_versions
        then ControlCommand.terminate_plan
        else ControlCommand.update_version versions)
  some (
    record c { status = status; plan = record (c.plan) { versions = versions } },
    to_all_controllers plan_id command ∷ [],
  )

unfoldable pub handle_update_map_version : ControllerMsg → Control → Result
unfolding map_join_spec part_to_node
handle_update_map_version ctrl c = do
  s ← map_join_spec c
  nodes ← part_to_node s.map_collection_id c
  moved ← advance_part nodes ctrl.part_id ctrl.version c.plan.map
  some (record c { plan = record (c.plan) { map = moved.0 } }, [])

-- The loop of `try update version`: no node that holds a counted partition stands at `versions`.
unfoldable pub all_passed : ℕ → Map ℕ → Map ℕ → Bool
all_passed versions node_count [] = true
all_passed versions node_count ((n, v) ∷ node_versions) =
    (get 0 n node_count == 0 || not (v == versions)) && all_passed versions node_count node_versions

unfoldable pub handle_update_join_version : ControllerMsg → Control → Result
unfolding map_join_spec part_to_node
handle_update_join_version ctrl c = do
  s ← map_join_spec c
  nodes ← part_to_node s.update_collection_id c
  moved ← advance_part nodes ctrl.part_id ctrl.version c.plan.update
  let c' = record c { plan = record (c.plan) { update = moved.0 } }
  if moved.1 && all_passed c.plan.versions (moved.0).node_count (moved.0).node_versions
      then update_version ctrl.plan_id c'
      else some (c', [])

unfoldable pub init : Control → Option Control
unfolding map_join_spec part_to_node
init c = do
  s ← map_join_spec c
  map_nodes ← part_to_node s.map_collection_id c
  update_nodes ← part_to_node s.update_collection_id c
  some (record c {
    plan = record (c.plan) {
      map = init_tracker c.elem.nodes map_nodes c.plan.map;
      update = init_tracker c.elem.nodes update_nodes c.plan.update;
      cached_part_to_node = map_nodes;
    };
  })

-- Every partition has reported its background checkpoint.
unfoldable pub finish_checkpoint : MapJoinSpec → Control → Result
finish_checkpoint s c =
    let added = (do
      path ← s.checkpoint_path
      some (
        record c {
          status =
              add_cp s.update_collection_id
                (Url.cp (Url.text path) (c.plan.versions / s.checkpoint_interval)) c.status;
        },
        [],
      )) in
    if s.checkpoint_interval == 0 then some (c, []) else added

-- With BGCP false no worker sends this message.
unfoldable pub receive_finish_cp : ControllerMsg → Control → Result
unfolding map_join_spec part_to_node finish_checkpoint
receive_finish_cp ctrl c = do
  let parts = insert ctrl.part_id (get [] ctrl.version c.plan.cp_count)
  let c' = record c { plan = record (c.plan) { cp_count = set ctrl.version parts c.plan.cp_count } }
  let counted = (do
    s ← map_join_spec c
    nodes ← part_to_node s.map_collection_id c
    if length parts == length nodes then finish_checkpoint s c' else some (c', []))
  if c.plan.versions == c.plan.expected_versions then some (c, []) else counted

unfoldable pub handle_flag : ControllerMsg → Flag → Control → Result
unfolding init receive_finish_cp
handle_flag ctrl Flag.setup c = do
  let is_setup = insert ctrl.node_id c.plan.is_setup
  let c' = record c { plan = record (c.plan) { is_setup = is_setup } }
  let started = (do
    c'' ← init c'
    some (c'', to_all_controllers ctrl.plan_id ControlCommand.start ∷ []))
  if length is_setup == length c.elem.nodes then started else some (c', [])
handle_flag ctrl Flag.map c = handle_update_map_version ctrl c
handle_flag ctrl Flag.join c = handle_update_join_version ctrl c
handle_flag ctrl Flag.finish c = do
  let is_finished = insert ctrl.node_id c.plan.is_finished
  let c' = record c { plan = record (c.plan) { is_finished = is_finished } }
  let done = (do
    f ← c.plan.callback
    some (record c' { plan = record (c'.plan) { callback = none } }, call f ∷ []))
  if length is_finished == length c.elem.nodes then done else some (c', [])
handle_flag ctrl Flag.finish_migrate c = some (c, [])
handle_flag ctrl Flag.finish_cp c = receive_finish_cp ctrl c

unfoldable pub control : ControllerMsg → Control → Result
unfolding handle_flag
control ctrl c = handle_flag ctrl ctrl.flag c

unfoldable pub abort_plan : ℕ → Callback → Control → Result
abort_plan plan_id f c = do
  g ← c.plan.callback
  some (
    record c { plan = record (c.plan) { callback = some f } },
    to_all_controllers plan_id ControlCommand.terminate_plan ∷ [],
  )

unfoldable pub run_plan : SpecWrapper → Callback → Control → Result
run_plan spec f c = do
  s ← get_map_join_spec spec.spec
  check (not (s.num_iter == 0))
  some (
    record c {
      plan = record (c.plan) {
        spec = some spec;
        is_setup = [];
        is_finished = [];
        versions = 0;
        expected_versions = s.num_iter;
        callback = some f;
      };
    },
    to_all_controllers spec.id (ControlCommand.setup spec) ∷ [],
  )

unfoldable pub get_cur_version : Control → ℕ
get_cur_version c = c.plan.versions
