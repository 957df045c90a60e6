-- ===== src/Worker/PlanController/Handled.antt =====
-- core/worker/plan_controller.cpp and controller.cpp: no message puts a map or a fetch beside an update.
use tangram.Base.{ℕ, ◌+◌, ◌≡◌, refl, ◌==◌, ltb, true, false, not, some, [], check, lookup, get, has}
use tangram.Plan.Spec.{Spec, MapJoinSpec, SpecWrapper, map_join, map_with_join}
use tangram.Scheduler.Elem.{ControlCommand}
use tangram.Worker.Elem.{Message}
use tangram.Worker.Partitions.{get_part}
use tangram.Worker.PlanController.{PlanController, same_collection, all_of_part}
use tangram.Worker.PlanController.IsValid.{IsValid, is_apart, with_apart}
use tangram.Worker.PlanController.Leaves.{
  Leaves, some-Leaves, none-Leaves, send_one-Leaves, bind-Leaves,
}
use tangram.Worker.PlanController.Exclusive.{start_map-IsValid, try_run_some_maps-IsValid}
use tangram.Worker.PlanController.Handlers.{
  finish_map-IsValid, receive_join-IsValid, finish_join-IsValid, finish_checkpoint-IsValid,
  receive_fetch_request-IsValid, finish_fetch-IsValid,
}
use tangram.Worker.PlanController.Setup.{
  setup, setup_spec, has_checkpoint_path, set_up, setup_map_join, get_num_parts, start_plan,
  update_version,
}
use tangram.Worker.PlanController.Migrate.{finish_load_with}
use tangram.Worker.PlanController.MapOnly.{start_migrate_map_only, receive_map_only}
use tangram.Worker.PlanController.Process.{handle, handle_control}
use tangram.Worker.PlanController.Moves.{
  IsPlaced, start_migrate-IsValid, receive_flush_all-IsValid, migrate_dest-IsValid,
  reassign_map-IsValid,
}

set_up-IsValid :
    (id : ℕ) (m : MapJoinSpec) (up update : ℕ) (s : PlanController)
    → s.running_updates ≡ []
    → IsValid s
    → IsValid (set_up id m up update s)
unfolding set_up is_apart has lookup get all_of_part
set_up-IsValid id m up update s h x = record {
  apart = λ q. rw h refl;
  waiting = λ q. refl;
  pending = λ q v. refl;
  buffered = λ q. x.buffered q;
}

setup_map_join-IsValid :
    (id : ℕ) (m : MapJoinSpec) (s : PlanController)
    → s.running_updates ≡ []
    → IsValid s
    → Leaves IsValid (setup_map_join id m s)
unfolding setup_map_join
setup_map_join-IsValid id m s h x = bind-Leaves IsValid (check (has_checkpoint_path m)) _ λ _ _.
    bind-Leaves IsValid (get_num_parts m.map_collection_id s.collection_map) _ λ up _.
      bind-Leaves IsValid (get_num_parts m.update_collection_id s.collection_map) _ λ update _.
        bind-Leaves IsValid (check (not (m.num_iter == 0))) _
          λ _ _. send_one-Leaves IsValid _ _ (set_up-IsValid id m up update s h x)

-- What a message tells of the state that it comes to. The end of an update comes while it runs; a map for another
-- node is of a collection that is not updated; what a migration brings is of its partition; a plan is set up once.
abbrev pub Expected : Message → PlanController → Type 0
Expected (Message.finish_join p v ups) s = has p s.running_updates ≡ true
Expected (Message.receive_map_only meta v part) s = same_collection s ≡ false
Expected (Message.migrate_dest meta d bytes) s = IsPlaced meta.partition_id d
Expected (Message.control (ControlCommand.setup spec)) s = s.running_updates ≡ []
Expected m s = Unit

setup_spec-IsValid :
    (spec : Spec) (id : ℕ) (s : PlanController)
    → s.running_updates ≡ []
    → IsValid s
    → Leaves IsValid (setup_spec spec id s)
unfolding setup_spec is_apart has lookup
setup_spec-IsValid (map_join m) id s h x = setup_map_join-IsValid id m s h x
setup_spec-IsValid (map_with_join m w) id s h x =
    setup_map_join-IsValid id m (record s { fetch_collection_id = some w }) h
      (with_apart s _ x refl refl refl λ q. rw h refl)
setup_spec-IsValid _ id s h x = none-Leaves IsValid

setup-IsValid :
    (spec : SpecWrapper) (s : PlanController)
    → s.running_updates ≡ []
    → IsValid s
    → Leaves IsValid (setup spec s)
unfolding setup
setup-IsValid spec s h x = setup_spec-IsValid spec.spec spec.id s h x

handle_control-IsValid :
    (c : ControlCommand) (s : PlanController)
    → Expected (Message.control c) s
    → IsValid s
    → Leaves IsValid (handle_control c s)
unfolding handle_control setup start_plan update_version finish_load_with start_migrate_map_only
    is_apart
handle_control-IsValid (ControlCommand.setup spec) s h x = setup-IsValid spec s h x
handle_control-IsValid ControlCommand.start s h x = try_run_some_maps-IsValid s x
handle_control-IsValid (ControlCommand.update_version v) s h x =
    bind-Leaves IsValid (check (ltb v s.expected_num_iter)) _ λ _ _.
      bind-Leaves IsValid (check (v == s.min_version + 1)) _
        λ _ _. try_run_some_maps-IsValid _ (with_apart s _ x refl refl refl λ q. x.apart q)
handle_control-IsValid ControlCommand.terminate_plan s h x = some-Leaves IsValid s [] x
handle_control-IsValid (ControlCommand.start_migrate meta view) s h x =
    start_migrate-IsValid meta view s x
handle_control-IsValid (ControlCommand.start_migrate_map_only meta view) s h x =
    bind-Leaves IsValid (check (meta.collection_id == s.map_collection_id)) _ λ _ _.
      bind-Leaves IsValid (check (not (meta.collection_id == s.update_collection_id))) _ λ _ _.
        bind-Leaves IsValid (lookup meta.partition_id s.map_versions) _ λ _ _.
          bind-Leaves IsValid (check (not (has meta.partition_id s.stop_updating))) _ λ _ _.
            bind-Leaves IsValid (get_part meta.collection_id meta.partition_id s.partitions) _
              λ _ _. some-Leaves IsValid _ _ (with_apart s _ x refl refl refl λ q. x.apart q)
handle_control-IsValid (ControlCommand.finish_load_with (a, b, p)) s h x =
    some-Leaves IsValid _ [] (with_apart s _ x refl refl refl λ q. x.apart q)
handle_control-IsValid (ControlCommand.reassign_map ms) s h x = reassign_map-IsValid ms s x

pub handle-Leaves :
    (m : Message) (s : PlanController) → Expected m s → IsValid s → Leaves IsValid (handle m s)
unfolding handle receive_map_only
handle-Leaves (Message.control c) s h x = handle_control-IsValid c s h x
handle-Leaves (Message.finish_map p flag) s h x = finish_map-IsValid p flag s x
handle-Leaves (Message.finish_join p v ups) s h x = finish_join-IsValid p v ups s h x
handle-Leaves (Message.receive_join j) s h x = receive_join-IsValid j s x
handle-Leaves (Message.fetch_request f) s h x = receive_fetch_request-IsValid f s x
handle-Leaves (Message.finish_fetch p) s h x = finish_fetch-IsValid p s x
handle-Leaves (Message.finish_checkpoint p) s h x = finish_checkpoint-IsValid p s x
handle-Leaves (Message.flush_all meta) s h x = receive_flush_all-IsValid meta s x
handle-Leaves (Message.migrate_dest meta d bytes) s h x = migrate_dest-IsValid meta d bytes s h x
handle-Leaves (Message.receive_map_only meta version part) s h x =
    start_map-IsValid meta.partition_id version part s (rw h refl) x
