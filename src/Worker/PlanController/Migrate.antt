-- ===== src/Worker/PlanController/Migrate.antt =====
-- core/worker/plan_controller.cpp: a partition of the updated collection moves to another node, with what waits for it.
use tangram.Base.{
  ℕ, ◌+◌, ◌-◌, ◌==◌, leb, if◌then◌else◌, Bool, true, false, not, ◌&&◌, Option, some, none, List, [],
  ◌∷◌, ◌>>=◌, ◌>>◌, check, Map, set, erase, get, has, member,
}
use tangram.Worker.Elem.{
  VersionedJoinMeta, join, fetch, FetchMeta, Bytes, report, send, push, Report, MigrateData,
  Message, upstream_part_ids,
}
use tangram.Worker.Partitions.{get_part, has_part, insert_part, remove_part}
use tangram.Worker.StreamStore.{StreamStore, stream_key, take_stream}
use tangram.Scheduler.Elem.{MigrateMeta, Move}
use tangram.Worker.PlanController.{
  PlanController, Result, same_collection, ◌and_then◌, push_waiting, push_pending, send_one,
  all_of_part,
}
use tangram.Worker.PlanController.Run.{try_run_some_maps, try_run_waiting_joins}

unfoldable pub start_migrate : MigrateMeta → List ℕ → PlanController → Result
start_migrate meta view s =
    let s1 = record s { collection_map = set meta.collection_id view s.collection_map } in
    let flush = send meta.from_id (Message.flush_all meta) ∷ [] in
    if meta.from_id == s1.node_id
    then (do
      check (meta.collection_id == s1.update_collection_id)
      check (has meta.partition_id s1.update_versions)
      check (not (has meta.partition_id s1.stop_updating))
      some (record s1 { stop_updating = set meta.partition_id false s1.stop_updating }, flush))
    else some (s1, flush)

-- `serialize_from_stream_store`: the key is made alike for an update and for a fetch; no stream has a fetch of
-- objects, which has no version, for its key.
unfoldable pub serialize_meta :
    VersionedJoinMeta → StreamStore → Option (VersionedJoinMeta × StreamStore)
unfolding stream_key
serialize_meta (join j) store =
    if j.local_mode
    then (take_stream (stream_key j.part_id (upstream_part_ids j.upstream) j.version) store >>= λ r.
        some (join (record j { bin = r.0; local_mode = false }), r.1))
    else some (join j, store)
serialize_meta (fetch f) store =
    if f.local_mode
    then (f.version >>= λ v.
        take_stream (stream_key f.part_id (f.upstream_part_id ∷ []) v) store >>= λ r.
        some (fetch (record f { bin = r.0; local_mode = false }), r.1))
    else some (fetch f, store)

unfoldable pub serialize_metas :
    List VersionedJoinMeta → StreamStore → Option (List VersionedJoinMeta × StreamStore)
unfolding serialize_meta
serialize_metas [] store = some ([], store)
serialize_metas (m ∷ ms) store = do
  one ← serialize_meta m store
  rest ← serialize_metas ms one.1
  some (one.0 ∷ rest.0, rest.1)

unfoldable pub serialize_pending :
    Map (List VersionedJoinMeta) → StreamStore → Option (Map (List VersionedJoinMeta) × StreamStore)
unfolding serialize_metas
serialize_pending [] store = some ([], store)
serialize_pending ((v, ms) ∷ m) store = do
  one ← serialize_metas ms store
  rest ← serialize_pending m one.1
  some ((v, one.0) ∷ rest.0, rest.1)

-- The partition is stopped until its running map, if there is one, has ended.
unfoldable pub stop_partition : ℕ → PlanController → PlanController
stop_partition p s = record s {
  flush_all_count = set p 0 s.flush_all_count;
  stop_updating =
      if member p s.running_maps then set p true s.stop_updating else erase p s.stop_updating;
}

unfoldable pub leave_partition : ℕ → StreamStore → PlanController → PlanController
leave_partition p store s = record s {
  map_versions = if same_collection s then erase p s.map_versions else s.map_versions;
  num_local_map_part = if same_collection s then s.num_local_map_part - 1 else s.num_local_map_part;
  stream_store = store;
  update_versions = erase p s.update_versions;
  num_local_update_part = s.num_local_update_part - 1;
  pending_updates = erase p s.pending_updates;
  waiting_updates = erase p s.waiting_updates;
  update_tracker = erase p s.update_tracker;
}

-- After the last `kFlushAll`: everything of the partition goes to the destination.
unfoldable pub send_partition : MigrateMeta → PlanController → Result
unfolding serialize_pending leave_partition stop_partition
send_partition meta s =
    let p = meta.partition_id in
    do
      check (has p s.stop_updating)
      pending ← serialize_pending (get [] p s.pending_updates) s.stream_store
      waiting ← serialize_metas (get [] p s.waiting_updates) pending.1
      part ← get_part meta.collection_id p s.partitions
      let s1 = leave_partition p waiting.1 (stop_partition p s)
      some (
        record s1 { partitions = remove_part meta.collection_id p s1.partitions },
        send meta.to_id (
              Message.migrate_dest meta
                (record {
                  map_version = get 0 p s.map_versions;
                  update_version = get 0 p s.update_versions;
                  pending_updates = pending.0;
                  waiting_updates = waiting.0;
                  update_tracker = get [] p s.update_tracker;
                })
                part)
            ∷ [],
      )

-- One `kFlushAll`. The last one comes again if an update runs on the partition.
unfoldable pub receive_flush_all : MigrateMeta → PlanController → Result
unfolding send_partition
receive_flush_all meta s =
    let p = meta.partition_id in
    let n = get 0 p s.flush_all_count + 1 in
    let s1 = record s { flush_all_count = set p n s.flush_all_count } in
    let again = record s { flush_all_count = set p (n - 1) s.flush_all_count } in
    do
      check (meta.from_id == s.node_id)
      if not (n == meta.num_nodes)
          then some (s1, [])
          else if has p s.running_updates
          then some (again, push (Message.flush_all meta) ∷ [])
          else send_partition meta s1

-- The buffered requests join what waits: behind the map of their version, or ready to run.
unfoldable pub keep_at : ℕ → ℕ → VersionedJoinMeta → PlanController → PlanController
keep_at p v m s =
    if same_collection s && leb (get 0 p s.map_versions) v
    then push_pending p v m s
    else push_waiting p (m ∷ []) s

-- A fetch of objects has version -1.
unfoldable pub keep_fetch : FetchMeta → Option ℕ → PlanController → PlanController
unfolding keep_at
keep_fetch f none s = push_waiting f.part_id (fetch f ∷ []) s
keep_fetch f (some v) s = keep_at f.part_id v (fetch f) s

unfoldable pub unbuffer : List VersionedJoinMeta → PlanController → PlanController
unfolding keep_at keep_fetch
unbuffer [] s = s
unbuffer (join j ∷ ms) s = unbuffer ms (keep_at j.part_id j.version (join j) s)
unbuffer (fetch f ∷ ms) s = unbuffer ms (keep_fetch f f.version s)

-- The fetched partition is loaded first, where it is placed with the mapped one.
unfoldable pub waits_for_load : ℕ → PlanController → Bool
waits_for_load p s = elim (s.fetch_collection_id) [
  | none ↦ false
  | some f ↦
      same_collection s && not (s.map_collection_id == f) && not (get false p s.load_finished)
]

unfoldable pub enter_partition : ℕ → MigrateData → PlanController → PlanController
enter_partition p d s = record s {
  load_finished = set p false s.load_finished;
  map_versions = if same_collection s then set p d.map_version s.map_versions else s.map_versions;
  num_local_map_part = if same_collection s then s.num_local_map_part + 1 else s.num_local_map_part;
  update_versions = set p d.update_version s.update_versions;
  pending_updates = set p d.pending_updates s.pending_updates;
  waiting_updates = set p d.waiting_updates s.waiting_updates;
  update_tracker = set p d.update_tracker s.update_tracker;
  num_local_update_part = s.num_local_update_part + 1;
}

-- The state when the partition has come, before anything of it runs.
unfoldable pub take_partition :
    MigrateMeta → MigrateData → Bytes → PlanController → Option PlanController
unfolding enter_partition unbuffer all_of_part
take_partition meta d bytes s =
    let p = meta.partition_id in
    do
      check (not (same_collection s && has p s.map_versions))
      check (not (has p s.update_versions))
      check (not (has p s.pending_updates))
      check (not (has p s.waiting_updates))
      check (not (has p s.update_tracker))
      check (all_of_part p (get [] p s.buffered_requests))
      check (not (has_part meta.collection_id p s.partitions))
      let s1 = unbuffer (get [] p s.buffered_requests) (enter_partition p d s)
      some (record s1 {
        buffered_requests = set p [] s1.buffered_requests;
        partitions = insert_part meta.collection_id p bytes s1.partitions;
      })

unfoldable pub migrate_dest : MigrateMeta → MigrateData → Bytes → PlanController → Result
unfolding waits_for_load take_partition
migrate_dest meta d bytes s = do
  check (meta.to_id == s.node_id)
  if waits_for_load meta.partition_id s
      then some (s, push (Message.migrate_dest meta d bytes) ∷ [])
      else take_partition meta d bytes s >>= λ s1.
          (if same_collection s1 then try_run_some_maps s1 else some (s1, []))
          and_then try_run_waiting_joins meta.partition_id
          and_then send_one (report (Report.finish_migrate meta.partition_id))

unfoldable pub finish_load_with : Move → PlanController → PlanController
finish_load_with (from_id, to_id, p) s = record s { load_finished = set p true s.load_finished }
