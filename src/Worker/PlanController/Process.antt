-- ===== src/Worker/PlanController/Process.antt =====
-- core/worker/controller.cpp: the controller of a node, which hands each message to the plan controller it is for.
use tangram.Base.{
  ℕ, true, false, Option, some, List, [], ◌∷◌, ◌>>=◌, ◌>>◌, check, Map, lookup, set, erase, has,
  insert_new,
}
use tangram.Scheduler.Elem.{ControlCommand}
use tangram.Worker.Elem.{Effect, report, Report, Message}
use tangram.Worker.Partitions.{PartitionManager}
use tangram.Worker.PlanController.{PlanController, Result}
use tangram.Worker.PlanController.Setup.{new_plan_controller, setup, start_plan, update_version}
use tangram.Worker.PlanController.Maps.{finish_map}
use tangram.Worker.PlanController.Joins.{receive_join, finish_join, finish_checkpoint}
use tangram.Worker.PlanController.Fetches.{receive_fetch_request, finish_fetch}
use tangram.Worker.PlanController.Migrate.{
  start_migrate, receive_flush_all, migrate_dest, finish_load_with,
}
use tangram.Worker.PlanController.MapOnly.{start_migrate_map_only, receive_map_only, reassign_map}

-- The commands of the scheduler to a plan controller; `kTerminatePlan` is the controller's.
unfoldable pub handle_control : ControlCommand → PlanController → Result
handle_control (ControlCommand.setup spec) s = setup spec s
handle_control ControlCommand.start s = start_plan s
handle_control (ControlCommand.update_version v) s = update_version v s
handle_control ControlCommand.terminate_plan s = some (s, [])
handle_control (ControlCommand.start_migrate meta view) s = start_migrate meta view s
handle_control (ControlCommand.start_migrate_map_only meta view) s = start_migrate_map_only meta s
handle_control (ControlCommand.finish_load_with m) s = some (finish_load_with m s, [])
handle_control (ControlCommand.reassign_map ms) s = reassign_map ms s

unfoldable pub handle : Message → PlanController → Result
unfolding handle_control
handle (Message.control c) s = handle_control c s
handle (Message.finish_map p flag) s = finish_map p flag s
handle (Message.finish_join p v ups) s = finish_join p v ups s
handle (Message.receive_join j) s = receive_join j s
handle (Message.fetch_request f) s = receive_fetch_request f s
handle (Message.finish_fetch p) s = finish_fetch p s
handle (Message.finish_checkpoint p) s = finish_checkpoint p s
handle (Message.flush_all meta) s = receive_flush_all meta s
handle (Message.migrate_dest meta d bytes) s = migrate_dest meta d bytes s
handle (Message.receive_map_only meta version part) s = receive_map_only meta version part s

pub record Controller : Type 0 where
  pub node_id : ℕ
  pub plan_controllers : Map PlanController
  pub partitions : PartitionManager
  pub collection_map : Map (List ℕ)

-- A handler of one plan sees the node's partitions and collections, and the node what it made of them.
unfoldable pub with_plan :
    (plan_id : ℕ) → (PlanController → Result) → Controller → Option (Controller × List Effect)
with_plan plan_id h c = do
  s ← lookup plan_id c.plan_controllers
  r ← h (record s { partitions = c.partitions; collection_map = c.collection_map })
  some (
    record c {
      plan_controllers = set plan_id r.0 c.plan_controllers;
      partitions = r.0.partitions;
      collection_map = r.0.collection_map;
    },
    r.1,
  )

unfoldable pub terminate_plan : ℕ → Controller → Option (Controller × List Effect)
terminate_plan plan_id c = do
  check (has plan_id c.plan_controllers)
  some (record c { plan_controllers = erase plan_id c.plan_controllers }, report Report.finish ∷ [])

-- A message for a plan that is not there is left out, unless it sets the plan up.
unfoldable pub process : (plan_id : ℕ) → Message → Controller → Option (Controller × List Effect)
unfolding with_plan terminate_plan handle
process plan_id (Message.control (ControlCommand.setup spec)) c =
    with_plan spec.id (setup spec) (record c {
      plan_controllers =
          insert_new spec.id (new_plan_controller c.node_id c.partitions c.collection_map)
            c.plan_controllers;
    })
process plan_id (Message.control ControlCommand.terminate_plan) c =
    elim (has plan_id c.plan_controllers) [ false ↦ some (c, []) | true ↦ terminate_plan plan_id c ]
process plan_id m c = elim (has plan_id c.plan_controllers) [
  | false ↦ some (c, [])
  | true ↦ with_plan plan_id (handle m) c
]
