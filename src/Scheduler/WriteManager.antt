-- ===== src/Scheduler/WriteManager.antt =====
-- core/scheduler/write_manager.hpp and write_manager.cpp: every partition of a collection is written, and the plan
-- finishes with the last reply.
pub mod Counting
use tangram.Base.{
  ℕ, suc, ◌+◌, Option, none, some, List, [], ◌∷◌, Map, lookup, set, get, erase, length,
  if◌then◌else◌, ◌==◌, ◌>>=◌,
}
use tangram.Plan.Spec.{Url, Spec, SpecWrapper, write, checkpoint}
use tangram.Scheduler.CollectionStatus.{CollectionStatus, add_cp, get_last_cp}
use tangram.Scheduler.Elem.{
  SchedulerElem, Callback, Effect, WorkerCommand, to_worker, checkpoint_loaded,
}
use tangram.Scheduler.CheckpointLoader.{CheckpointLoader, load_checkpoint}

pub record WriteManager : Type 0 where
  pub reply_count : Map ℕ
  pub expected_reply_count : Map ℕ
  pub cid_pid : Map ℕ

unfoldable pub write_commands : ℕ → ℕ → List ℕ → Url → List Effect
write_commands cid i [] url = []
write_commands cid i (node_id ∷ nodes) url =
    to_worker node_id (WorkerCommand.write_partition cid i (Url.part url i))
    ∷ write_commands cid (suc i) nodes url

unfoldable pub write_collection :
    SchedulerElem → SpecWrapper → WriteManager → Option (WriteManager × List Effect)
unfolding write_commands
write_collection elem s m = elim s.spec [
  | write cid url ↦ do
    nodes ← lookup cid elem.collection_map
    some (
      record {
        reply_count = set cid 0 m.reply_count;
        expected_reply_count = set cid (length nodes) m.expected_reply_count;
        cid_pid = set cid s.id m.cid_pid;
      },
      write_commands cid 0 nodes url,
    )
  | _ ↦ none
]

-- A plan id that is missing reads as 0.
unfoldable pub finish_write_partition : ℕ → WriteManager → Option (WriteManager × List Effect)
finish_write_partition collection_id m =
    let count = get 0 collection_id m.reply_count + 1 in
    let m' = record m { reply_count = set collection_id count m.reply_count } in
    if count == get 0 collection_id m.expected_reply_count
    then some (m', Effect.finish_plan (get 0 collection_id m.cid_pid) ∷ [])
    else some (m', [])
