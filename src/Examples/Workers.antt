-- ===== src/Examples/Workers.antt =====
-- Runs of plan controllers (core/worker): the theorems at concrete inputs.
use tangram.Base.{
  ℕ, ◌+◌, ◌≤◌, ◌≡◌, refl, arith, true, false, some, none, [], ◌∷◌, length, get, lookup, set, erase,
  has, member, insert, remove, pos, if◌then◌else◌, keys, size,
}
use tangram.Plan.Spec.{map_join, MapJoinSpec}
use tangram.Scheduler.Elem.{ControlCommand, MigrateMeta}
use tangram.Worker.Elem.{
  JoinMeta, ext, run_join, run_map, report, Report, Message, send, MigrateData, join,
  upstream_part_ids,
}
use tangram.Worker.Partitions.{
  PartitionManager, get_part, get_parts, get_num_local_parts, has_part, insert_part, remove_part,
}
use tangram.Worker.PlanController.{
  PlanController, same_collection, tracked, track, push_waiting, all_of_part, send_one,
  is_collection,
}
use tangram.Worker.PlanController.Setup.{
  new_plan_controller, set_up, setup, setup_spec, setup_map_join, has_checkpoint_path,
  zero_versions, get_num_parts, start_plan,
}
use tangram.Worker.PlanController.Run.{
  start_map, mark_map, is_map_runnable, try_run_map, run_some_maps, try_run_some_maps, is_joined,
  agree, is_joined_before, start_join, mark_update, is_busy, run_waiting, try_run_waiting_joins,
}
use tangram.Worker.PlanController.Maps.{
  finish_map, advance_map, leave_map, erase_stop, release, release_pending,
}
use tangram.Worker.PlanController.Joins.{
  receive_join, finish_join, insert_all, complete_join, calc_join_tracker_size, tracker_size,
  version_sizes, checkpoint_due,
}
use tangram.Worker.PlanController.Process.{handle, handle_control}
use tangram.Worker.StreamStore.{
  stream_key, take_stream, find_stream, erase_stream, same_key, same_ids,
}
use tangram.Worker.PlanController.Migrate.{
  send_partition, stop_partition, leave_partition, serialize_pending, serialize_metas,
  serialize_meta, take_partition, enter_partition, unbuffer,
}
use tangram.Worker.PlanController.Payload.{carry_all}
use tangram.Worker.PlanController.RoundTrip.{migrate_round_trip}
use tangram.Worker.PlanController.Rounds.{Round, fresh, Round-version}
use tangram.Worker.PlanController.Tasks.{
  Worker, Step, Reach, here, next, task_messages, tasks_of, others_of, is_task_message,
  reached-alone,
}

-- One collection of one partition, mapped and updated on node 0.
abbrev spec : MapJoinSpec
spec = record {
  map_collection_id = 0;
  update_collection_id = 0;
  num_iter = 2;
  staleness = 0;
  checkpoint_interval = 0;
  checkpoint_path = none;
}

abbrev parts : PartitionManager
parts = (0, (0, 7 ∷ []) ∷ []) ∷ []

abbrev ready : PlanController
ready = set_up 5 spec 1 1 (new_plan_controller 0 parts ((0, 0 ∷ []) ∷ []))

abbrev mapping : PlanController
mapping = record ready { running_maps = 0 ∷ [] }

abbrev waiting : PlanController
waiting = record ready {
  map_versions = (0, 1) ∷ [];
  pending_updates = (0, (0, []) ∷ []) ∷ [];
  waiting_updates = (0, []) ∷ [];
}

abbrev update : JoinMeta
update = record {
  part_id = 0;
  upstream = ext (0 ∷ []);
  version = 0;
  local_mode = false;
  bin = 4 ∷ [];
}

abbrev fresh_worker : Worker
fresh_worker = record { controller = new_plan_controller 0 parts ((0, 0 ∷ []) ∷ []); tasks = [] }

setup_step :
    handle
      (Message.control (ControlCommand.setup (record { id = 5; spec = map_join spec })))
      (new_plan_controller 0 parts ((0, 0 ∷ []) ∷ []))
    ≡ some (ready, report Report.setup ∷ [])
unfolding handle handle_control setup setup_spec setup_map_join has_checkpoint_path get_num_parts
    lookup send_one new_plan_controller set_up
setup_step = refl

start_step :
    handle (Message.control ControlCommand.start) ready ≡ some (mapping, run_map 0 0 (7 ∷ []) ∷ [])
unfolding handle handle_control start_plan try_run_some_maps run_some_maps try_run_map
    is_map_runnable start_map mark_map lookup get_part get has member insert new_plan_controller
    set_up zero_versions get_parts set keys
start_step = refl

map_step : handle (Message.finish_map 0 true) mapping ≡ some (waiting, report (Report.map 0 1) ∷ [])
unfolding handle finish_map advance_map leave_map erase_stop release release_pending
    try_run_waiting_joins is_busy run_waiting try_run_some_maps run_some_maps try_run_map
    is_map_runnable lookup get has member remove new_plan_controller set_up zero_versions get_parts
    set keys send_one is_collection
map_step = refl

abbrev updating : PlanController
updating = record waiting {
  update_tracker = (0, (0, []) ∷ []) ∷ [];
  running_updates = (0, ext (0 ∷ [])) ∷ [];
}

update_step : handle (Message.receive_join update) waiting ≡ some (updating, run_join update ∷ [])
unfolding handle receive_join is_joined_before is_joined agree tracked track push_waiting
    try_run_waiting_joins is_busy run_waiting start_join mark_update lookup get has member
    new_plan_controller set_up zero_versions get_parts set keys is_collection
update_step = refl

after_update :
    Reach fresh_worker
      (record { controller = updating; tasks = Message.finish_join 0 0 (0 ∷ []) ∷ [] })
unfolding is_task_message task_messages upstream_part_ids new_plan_controller
after_update =
    next
      (next
        (next
          (next here (
            Step.receive
              (Message.control (ControlCommand.setup (record { id = 5; spec = map_join spec })))
              refl refl setup_step))
          (Step.receive (Message.control ControlCommand.start) refl tt start_step))
        (Step.receive (Message.finish_map 0 true) refl tt map_step))
      (Step.receive (Message.receive_join update) refl tt update_step)

-- One update task is on its way back, and nothing else is at work.
reached-alone_example :
    tasks_of 0 (Message.finish_join 0 0 (0 ∷ []) ∷ []) + others_of 0 updating ≤ 1
reached-alone_example =
    reached-alone 0 parts ((0, 0 ∷ []) ∷ [])
      (record { controller = updating; tasks = Message.finish_join 0 0 (0 ∷ []) ∷ [] }) 0
      after_update

-- The update ends and is the only one of its version.
abbrev done : PlanController
done = record updating {
  update_versions = (0, 1) ∷ [];
  update_tracker_size = 1 ∷ [];
  running_updates = [];
}

join_step : finish_join 0 0 (0 ∷ []) updating ≡ some (done, report (Report.join 0 1) ∷ [])
unfolding finish_join complete_join insert_all calc_join_tracker_size tracker_size version_sizes
    checkpoint_due tracked track try_run_waiting_joins is_busy run_waiting lookup get has member
    insert erase new_plan_controller set_up zero_versions get_parts set keys is_collection send_one
join_step = refl

Round-version_example :
    (get 0 0 done.update_versions ≡ get 0 0 updating.update_versions + 1)
    × (length (tracked 0 0 done) ≡ 0)
unfolding tracked get lookup fresh member new_plan_controller set_up zero_versions get_parts set
    keys
Round-version_example =
    Round-version 0 0 (0 ∷ []) updating done (Round.joins (0 ∷ []) [] join_step refl Round.stop)
      refl refl (omega arith) (omega arith)

-- The partition moves to node 1, with a local update that waits.
abbrev move : MigrateMeta
move = record {
  plan_id = 5;
  collection_id = 0;
  partition_id = 0;
  from_id = 0;
  to_id = 1;
  num_nodes = 2;
}

abbrev local_update : JoinMeta
local_update = record update { local_mode = true; bin = [] }

abbrev leaving : PlanController
leaving = record waiting {
  waiting_updates = (0, join local_update ∷ []) ∷ [];
  stop_updating = (0, false) ∷ [];
  running_fetches = (0, pos 1) ∷ [];
  stream_store = (stream_key 0 (0 ∷ []) 0, 9 ∷ []) ∷ [];
}

abbrev moved : MigrateData
moved = record {
  map_version = 1;
  update_version = 0;
  pending_updates = (0, []) ∷ [];
  waiting_updates = join (record local_update { local_mode = false; bin = 9 ∷ [] }) ∷ [];
  update_tracker = [];
}

abbrev left : PlanController
left = record leaving {
  flush_all_count = (0, 0) ∷ [];
  stop_updating = [];
  map_versions = [];
  num_local_map_part = 0;
  stream_store = [];
  update_versions = [];
  num_local_update_part = 0;
  pending_updates = [];
  waiting_updates = [];
  partitions = [];
}

send_step :
    send_partition move leaving
    ≡ some (left, send 1 (Message.migrate_dest move moved (7 ∷ [])) ∷ [])
unfolding send_partition stop_partition leave_partition serialize_pending serialize_metas
    serialize_meta take_stream find_stream erase_stream same_key same_ids stream_key
    upstream_part_ids get_part remove_part size lookup get has member set erase new_plan_controller
    set_up zero_versions get_parts get_num_local_parts keys
send_step = refl

-- Node 1 before and after the partition has come.
abbrev bare : PlanController
bare = record ready {
  node_id = 1;
  map_versions = [];
  update_versions = [];
  num_local_map_part = 0;
  num_local_update_part = 0;
  partitions = [];
}

abbrev landed : PlanController
landed = record bare {
  load_finished = (0, false) ∷ [];
  map_versions = (0, 1) ∷ [];
  num_local_map_part = 1;
  update_versions = (0, 0) ∷ [];
  num_local_update_part = 1;
  pending_updates = (0, (0, []) ∷ []) ∷ [];
  waiting_updates = (0, moved.waiting_updates) ∷ [];
  update_tracker = (0, []) ∷ [];
  buffered_requests = (0, []) ∷ [];
  partitions = parts;
}

take_step : take_partition move moved (7 ∷ []) bare ≡ some landed
unfolding take_partition enter_partition unbuffer all_of_part has_part insert_part lookup get has
    set new_plan_controller set_up
take_step = refl

nothing_buffered : get [] 0 bare.buffered_requests ≡ []
unfolding get lookup new_plan_controller set_up
nothing_buffered = refl

migrate_round_trip_example :
    (get 0 0 landed.update_versions ≡ get 0 0 leaving.update_versions)
    × ((if same_collection bare then get 0 0 landed.map_versions else get 0 0 leaving.map_versions)
        ≡ get 0 0 leaving.map_versions)
    × (get [] 0 landed.update_tracker ≡ get [] 0 leaving.update_tracker)
    × (carry_all leaving.stream_store (get [] 0 leaving.waiting_updates)
        ≡ some (get [] 0 landed.waiting_updates))
    × ((v : ℕ)
        → carry_all leaving.stream_store (get [] v (get [] 0 leaving.pending_updates))
          ≡ some (get [] v (get [] 0 landed.pending_updates)))
    × (get_part 0 0 landed.partitions ≡ get_part 0 0 leaving.partitions)
migrate_round_trip_example =
    migrate_round_trip move moved (7 ∷ []) leaving left bare landed send_step take_step
      nothing_buffered
