-- ===== src/Scheduler/CheckpointManager.antt =====
-- core/scheduler/checkpoint_manager.hpp and checkpoint_manager.cpp: plans that save every partition of a collection, and
-- plans that load the last checkpoint.
pub mod Counting
use tangram.Base.{
  ℕ, suc, ◌+◌, Option, none, some, List, [], ◌∷◌, Map, lookup, set, get, erase, length,
  if◌then◌else◌, ◌==◌, ◌>>=◌,
}
use tangram.Plan.Spec.{Url, Spec, SpecWrapper, write, checkpoint}
use tangram.Scheduler.CollectionStatus.{CollectionStatus, add_cp, get_last_cp}
use tangram.Scheduler.Elem.{
  SchedulerElem, Callback, Effect, WorkerCommand, to_worker, checkpoint_loaded,
}
use tangram.Scheduler.CheckpointLoader.{CheckpointLoader, load_checkpoint}

pub record CheckpointManager : Type 0 where
  pub checkpoint_reply_count : Map ℕ
  pub expected_checkpoint_reply_count : Map ℕ
  pub cid_pid : Map ℕ

unfoldable pub checkpoint_commands : ℕ → ℕ → List ℕ → Url → List Effect
checkpoint_commands cid i [] url = []
checkpoint_commands cid i (node_id ∷ nodes) url =
    to_worker node_id (WorkerCommand.checkpoint cid i (Url.checkpoint_url url cid i))
    ∷ checkpoint_commands cid (suc i) nodes url

-- The checkpoint counts as the last one from the start.
unfoldable pub checkpoint_collection :
    SchedulerElem
    → SpecWrapper
    → CollectionStatus
    → CheckpointManager
    → Option (CheckpointManager × CollectionStatus × List Effect)
unfolding checkpoint_commands
checkpoint_collection elem s status m = elim s.spec [
  | checkpoint cid url ↦ do
    nodes ← lookup cid elem.collection_map
    some (
      record {
        checkpoint_reply_count = set cid 0 m.checkpoint_reply_count;
        expected_checkpoint_reply_count = set cid (length nodes) m.expected_checkpoint_reply_count;
        cid_pid = set cid s.id m.cid_pid;
      },
      add_cp cid url status,
      checkpoint_commands cid 0 nodes url,
    )
  | _ ↦ none
]

unfoldable pub load_last_checkpoint :
    SchedulerElem
    → SpecWrapper
    → CollectionStatus
    → CheckpointLoader
    → CheckpointManager
    → Option (CheckpointManager × CheckpointLoader × List Effect)
load_last_checkpoint elem s status loader m = elim s.spec [
  | Spec.load_checkpoint cid _ ↦ do
    url ← get_last_cp cid status
    loaded ← load_checkpoint elem cid url (checkpoint_loaded cid) loader
    some (record m { cid_pid = set cid s.id m.cid_pid }, loaded.0, loaded.1)
  | _ ↦ none
]

-- The closure that LoadCheckpoint hands on.
unfoldable pub finish_load_last : ℕ → CheckpointManager → CheckpointManager × List Effect
finish_load_last cid m =
    (record m { cid_pid = erase cid m.cid_pid }, Effect.finish_plan (get 0 cid m.cid_pid) ∷ [])

unfoldable pub finish_checkpoint_reply :
    ℕ → CheckpointManager → Option (CheckpointManager × List Effect)
finish_checkpoint_reply collection_id m =
    let count = get 0 collection_id m.checkpoint_reply_count + 1 in
    let m' = record m {
      checkpoint_reply_count = set collection_id count m.checkpoint_reply_count;
    } in
    if count == get 0 collection_id m.expected_checkpoint_reply_count
    then some (
      record m' { cid_pid = erase collection_id m.cid_pid },
      Effect.finish_plan (get 0 collection_id m.cid_pid) ∷ [],
    )
    else some (m', [])
