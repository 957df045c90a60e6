-- ===== src/Worker/PlanController/Moved.antt =====
-- core/worker/plan_controller.cpp: a migration and the commands of the scheduler mark the updates that they start.
use tangram.Base.{
  ℕ, ◌+◌, ◌≡◌, refl, arith, ◌==◌, if◌then◌else◌, not, Option, some, none, List, [], ◌∷◌, check,
  lookup, set, get, has, ltb, ◌∙◌,
}
use tangram.Plan.Spec.{Spec, MapJoinSpec, map_join, map_with_join}
use tangram.Scheduler.Elem.{MigrateMeta, ControlCommand, Move}
use tangram.Worker.Elem.{
  VersionedJoinMeta, join, fetch, FetchMeta, Bytes, Message, MigrateData, Report, send, push,
}
use tangram.Worker.Partitions.{get_part, get_num_local_parts}
use tangram.Worker.PlanController.{PlanController, same_collection, push_waiting, push_pending}
use tangram.Worker.PlanController.Leaves.{
  Ensures, some-Ensures, none-Ensures, if-Ensures, bind-Ensures,
}
use tangram.Worker.PlanController.Setup.{
  setup, setup_spec, has_checkpoint_path, set_up, setup_map_join, get_num_parts, start_plan,
  update_version,
}
use tangram.Worker.PlanController.Migrate.{
  start_migrate, receive_flush_all, send_partition, leave_partition, stop_partition,
  serialize_pending, serialize_metas, unbuffer, keep_at, keep_fetch, enter_partition,
  take_partition, migrate_dest, waits_for_load, finish_load_with,
}
use tangram.Worker.PlanController.MapOnly.{start_migrate_map_only, reassign_map, reassign_maps}
use tangram.Worker.PlanController.Process.{handle_control}
use tangram.Worker.PlanController.Marks.{
  updates_of, Marks, quiet, quiet-Marks, and_then-Marks, from-Marks, try_run_some_maps-Marks,
  try_run_waiting_joins-Marks,
}
use tangram.Worker.PlanController.Marked.{report-Marks}

keep_at-updates :
    (p v : ℕ) (m : VersionedJoinMeta) (s : PlanController)
    → (keep_at p v m s).running_updates ≡ s.running_updates
unfolding keep_at push_pending push_waiting
keep_at-updates p v m s = ground arith

keep_fetch-updates :
    (f : FetchMeta) (o : Option ℕ) (s : PlanController)
    → (keep_fetch f o s).running_updates ≡ s.running_updates
unfolding keep_fetch push_waiting
keep_fetch-updates f none s = refl
keep_fetch-updates f (some v) s = keep_at-updates f.part_id v (fetch f) s

unbuffer-updates :
    (ms : List VersionedJoinMeta) (s : PlanController)
    → (unbuffer ms s).running_updates ≡ s.running_updates
unfolding unbuffer
unbuffer-updates [] s = refl
unbuffer-updates (join j ∷ ms) s =
    unbuffer-updates ms (keep_at j.part_id j.version (join j) s)
    ∙ keep_at-updates j.part_id j.version (join j) s
unbuffer-updates (fetch f ∷ ms) s =
    unbuffer-updates ms (keep_fetch f f.version s) ∙ keep_fetch-updates f f.version s

take_partition-updates :
    (meta : MigrateMeta) (d : MigrateData) (bytes : Bytes) (s s' : PlanController)
    → take_partition meta d bytes s ≡ some s'
    → s'.running_updates ≡ s.running_updates
unfolding take_partition enter_partition
take_partition-updates meta d bytes s s' e = ground (
  arith,
  unbuffer-updates (get [] meta.partition_id s.buffered_requests)
      (enter_partition meta.partition_id d s),
)

pub migrate_dest-Marks :
    (meta : MigrateMeta) (d : MigrateData) (bytes : Bytes) (s : PlanController)
    → Ensures (Marks s.running_updates) (migrate_dest meta d bytes s)
unfolding migrate_dest updates_of
migrate_dest-Marks meta d bytes s =
    let M = Marks s.running_updates in
    bind-Ensures M (check (meta.to_id == s.node_id)) _ λ _ _.
      if-Ensures M (waits_for_load meta.partition_id s) _ _
        (λ h.
          quiet-Marks s.running_updates s (push (Message.migrate_dest meta d bytes) ∷ []) refl
            λ q. refl)
        (λ h. bind-Ensures M (take_partition meta d bytes s) _ λ s1 e.
          from-Marks s1.running_updates s.running_updates _
            (take_partition-updates meta d bytes s s1 e)
            (and_then-Marks s1.running_updates _ _
              (and_then-Marks s1.running_updates _ _
                (if-Ensures (Marks s1.running_updates) (same_collection s1) _ _
                  (λ k. try_run_some_maps-Marks s1)
                  (λ k. quiet-Marks s1.running_updates s1 [] refl quiet))
                (try_run_waiting_joins-Marks meta.partition_id))
              (report-Marks (Report.finish_migrate meta.partition_id))))

start_migrate-Marks :
    (meta : MigrateMeta) (view : List ℕ) (s : PlanController)
    → Ensures (Marks s.running_updates) (start_migrate meta view s)
unfolding start_migrate updates_of
start_migrate-Marks meta view s =
    let M = Marks s.running_updates in
    if-Ensures M (meta.from_id == s.node_id) _ _
      (λ h. bind-Ensures M (check (meta.collection_id == s.update_collection_id)) _ λ _ _.
        bind-Ensures M (check (has meta.partition_id s.update_versions)) _ λ _ _.
          bind-Ensures M (check (not (has meta.partition_id s.stop_updating))) _ λ _ _.
            quiet-Marks s.running_updates _ (send meta.from_id (Message.flush_all meta) ∷ []) refl
              λ q. refl)
      (λ h.
        quiet-Marks s.running_updates _ (send meta.from_id (Message.flush_all meta) ∷ []) refl
          λ q. refl)

send_partition-Marks :
    (meta : MigrateMeta) (s : PlanController)
    → Ensures (Marks s.running_updates) (send_partition meta s)
unfolding send_partition stop_partition leave_partition updates_of
send_partition-Marks meta s =
    let p = meta.partition_id in
    let M = Marks s.running_updates in
    bind-Ensures M (check (has p s.stop_updating)) _ λ _ _.
      bind-Ensures M (serialize_pending (get [] p s.pending_updates) s.stream_store) _ λ pending _.
        bind-Ensures M (serialize_metas (get [] p s.waiting_updates) pending.1) _ λ waiting _.
          bind-Ensures M (get_part meta.collection_id p s.partitions) _
            λ part _. some-Ensures M _ λ q. omega arith

pub receive_flush_all-Marks :
    (meta : MigrateMeta) (s : PlanController)
    → Ensures (Marks s.running_updates) (receive_flush_all meta s)
unfolding receive_flush_all updates_of
receive_flush_all-Marks meta s =
    let M = Marks s.running_updates in
    let n = get 0 meta.partition_id s.flush_all_count + 1 in
    bind-Ensures M (check (meta.from_id == s.node_id)) _ λ _ _.
      if-Ensures M (not (n == meta.num_nodes)) _ _
        (λ h. quiet-Marks s.running_updates _ [] refl quiet)
        (λ h.
          if-Ensures M (has meta.partition_id s.running_updates) _ _
            (λ k.
              quiet-Marks s.running_updates _ (push (Message.flush_all meta) ∷ []) refl λ q. refl)
            (λ k. send_partition-Marks meta _))

reassign_maps-updates :
    (ms : List Move) (s s' : PlanController)
    → reassign_maps ms s ≡ some s'
    → s'.running_updates ≡ s.running_updates
unfolding reassign_maps
reassign_maps-updates [] s s' e = cc
reassign_maps-updates ((n, p, v) ∷ ms) s s' e =
    let mine = n == s.node_id in
    reassign_maps-updates ms
      (record s {
        map_versions = if mine then set p v s.map_versions else s.map_versions;
        num_local_map_part = if mine then s.num_local_map_part + 1 else s.num_local_map_part;
      })
      s' (ground arith)

setup_map_join-Marks :
    (id : ℕ) (m : MapJoinSpec) (s : PlanController)
    → Ensures (Marks s.running_updates) (setup_map_join id m s)
unfolding setup_map_join set_up
setup_map_join-Marks id m s =
    let M = Marks s.running_updates in
    bind-Ensures M (check (has_checkpoint_path m)) _ λ _ _.
      bind-Ensures M (get_num_parts m.map_collection_id s.collection_map) _ λ up _.
        bind-Ensures M (get_num_parts m.update_collection_id s.collection_map) _ λ update _.
          bind-Ensures M (check (not (m.num_iter == 0))) _
            λ _ _. report-Marks Report.setup (set_up id m up update s)

setup_spec-Marks :
    (spec : Spec) (id : ℕ) (s : PlanController)
    → Ensures (Marks s.running_updates) (setup_spec spec id s)
unfolding setup_spec setup_map_join set_up
setup_spec-Marks (map_join m) id s = setup_map_join-Marks id m s
setup_spec-Marks (map_with_join m w) id s =
    setup_map_join-Marks id m (record s { fetch_collection_id = some w })
setup_spec-Marks _ id s = none-Ensures (Marks s.running_updates)

pub handle_control-Marks :
    (c : ControlCommand) (s : PlanController)
    → Ensures (Marks s.running_updates) (handle_control c s)
unfolding handle_control setup start_plan update_version finish_load_with start_migrate_map_only
    reassign_map updates_of
handle_control-Marks (ControlCommand.setup spec) s = setup_spec-Marks spec.spec spec.id s
handle_control-Marks ControlCommand.start s = try_run_some_maps-Marks s
handle_control-Marks (ControlCommand.update_version v) s =
    bind-Ensures (Marks s.running_updates) (check (ltb v s.expected_num_iter)) _ λ _ _.
      bind-Ensures (Marks s.running_updates) (check (v == s.min_version + 1)) _
        λ _ _. try_run_some_maps-Marks _
handle_control-Marks ControlCommand.terminate_plan s = quiet-Marks s.running_updates s [] refl quiet
handle_control-Marks (ControlCommand.start_migrate meta view) s = start_migrate-Marks meta view s
handle_control-Marks (ControlCommand.start_migrate_map_only meta view) s =
    let M = Marks s.running_updates in
    bind-Ensures M (check (meta.collection_id == s.map_collection_id)) _ λ _ _.
      bind-Ensures M (check (not (meta.collection_id == s.update_collection_id))) _ λ _ _.
        bind-Ensures M (lookup meta.partition_id s.map_versions) _ λ _ _.
          bind-Ensures M (check (not (has meta.partition_id s.stop_updating))) _ λ _ _.
            bind-Ensures M (get_part meta.collection_id meta.partition_id s.partitions) _
              λ _ _. some-Ensures M _ λ q. omega arith
handle_control-Marks (ControlCommand.finish_load_with (a, b, p)) s =
    quiet-Marks s.running_updates _ [] refl quiet
handle_control-Marks (ControlCommand.reassign_map ms) s =
    let M = Marks s.running_updates in
    bind-Ensures M (reassign_maps ms s) _ λ s1 e.
      bind-Ensures M
        (check (s1.num_local_map_part == get_num_local_parts s1.map_collection_id s1.partitions)) _
        λ _ _.
          from-Marks s1.running_updates s.running_updates _ (reassign_maps-updates ms s s1 e)
            (try_run_some_maps-Marks s1)
