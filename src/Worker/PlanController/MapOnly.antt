-- ===== src/Worker/PlanController/MapOnly.antt =====
-- core/worker/plan_controller.cpp: a map that runs on another node, and maps handed out anew after a failure.
use tangram.Base.{
  ℕ, ◌+◌, ◌==◌, if◌then◌else◌, Bool, true, false, not, ◌||◌, Option, some, none, List, [], ◌∷◌,
  ◌>>=◌, ◌>>◌, check, lookup, set, has,
}
use tangram.Worker.Elem.{JoinMeta, FetchMeta, Bytes, send, Message, upstream_part_ids}
use tangram.Worker.Partitions.{PartitionManager, get_part, has_part, get_num_local_parts}
use tangram.Worker.StreamStore.{StreamStore, take_stream}
use tangram.Scheduler.Elem.{MigrateMeta, Move}
use tangram.Worker.PlanController.{PlanController, Result}
use tangram.Worker.PlanController.Run.{start_map, try_run_some_maps}

unfoldable pub start_migrate_map_only : MigrateMeta → PlanController → Result
start_migrate_map_only meta s =
    let p = meta.partition_id in
    do
      check (meta.collection_id == s.map_collection_id)
      check (not (meta.collection_id == s.update_collection_id))
      version ← lookup p s.map_versions
      check (not (has p s.stop_updating))
      part ← get_part meta.collection_id p s.partitions
      some (
        record s { stop_updating = set p true s.stop_updating },
        send meta.to_id (Message.receive_map_only meta version part) ∷ [],
      )

unfoldable pub receive_map_only : MigrateMeta → ℕ → Bytes → PlanController → Result
receive_map_only meta version part s = start_map meta.partition_id version part s

-- The entries are the node, the partition and the version.
unfoldable pub reassign_maps : List Move → PlanController → Option PlanController
reassign_maps [] s = some s
reassign_maps ((to_id, p, version) ∷ ms) s = do
  let mine = to_id == s.node_id
  check (not mine || has_part s.map_collection_id p s.partitions)
  check (not mine || not (has p s.map_versions))
  reassign_maps ms (record s {
    map_versions = if mine then set p version s.map_versions else s.map_versions;
    num_local_map_part = if mine then s.num_local_map_part + 1 else s.num_local_map_part;
  })

unfoldable pub reassign_map : List Move → PlanController → Result
unfolding reassign_maps
reassign_map ms s = do
  s1 ← reassign_maps ms s
  check (s1.num_local_map_part == get_num_local_parts s1.map_collection_id s1.partitions)
  try_run_some_maps s1

-- The map task on its executor thread, which sees whether the partition is stopped before and after the user's
-- map: whether the output goes to the combiner, and the message for the controller.
unfoldable pub run_map_task : (stopped_before stopped_after : Bool) → ℕ → Bool × Message
run_map_task before after p =
    if before || after
    then (false, Message.finish_map p false)
    else (true, Message.finish_map p true)

-- The update task: what it applies to the partition, a stream of the store or the bytes of the message.
unfoldable pub run_join_task : JoinMeta → StreamStore → Option (Bytes × StreamStore × Message)
run_join_task j store =
    let done = Message.finish_join j.part_id j.version (upstream_part_ids j.upstream) in
    let taken =
      take_stream
        (record {
          part_id = j.part_id;
          upstream_part_ids = upstream_part_ids j.upstream;
          version = j.version;
        })
        store in
    if j.local_mode then (taken >>= λ r. some (r.0, r.1, done)) else some (j.bin, store, done)

-- The fetch task, by the user's getter: the reply and the message for the controller.
unfoldable pub run_fetch_task :
    (getter : Bytes → Bytes → Bytes) → FetchMeta → PartitionManager → Option (Bytes × Message)
run_fetch_task getter f parts = do
  part ← get_part f.collection_id f.part_id parts
  some (
    elim (f.version) [ none ↦ getter f.bin part | some _ ↦ part ],
    Message.finish_fetch f.part_id,
  )

-- The checkpoint task: what it writes, and the message for the controller.
unfoldable pub run_checkpoint_task : ℕ → ℕ → PartitionManager → Option (Bytes × Message)
run_checkpoint_task c p parts = do
  part ← get_part c p parts
  some (part, Message.finish_checkpoint p)
