-- ===== src/Scheduler/CheckpointManager/Counting.antt =====
-- The replies to one Checkpoint of core/scheduler/checkpoint_manager.cpp.
use tangram.Base.{
  ℕ, suc, ◌+◌, ◌≤◌, some, List, [], ◌∷◌, ◌≡◌, refl, arith, lookup, set, get, erase, length,
  if◌then◌else◌, ◌==◌, get-set,
}
use tangram.Plan.Spec.{Url, checkpoint}
use tangram.Scheduler.CollectionStatus.{CollectionStatus, add_cp}
use tangram.Scheduler.Elem.{SchedulerElem, Effect}
use tangram.Scheduler.Replies.{replies, Counts, replies-acts}
use tangram.Scheduler.CheckpointManager.{
  CheckpointManager, checkpoint_collection, checkpoint_commands, finish_checkpoint_reply,
}

module _ (cid pid : ℕ) where
  abbrev saved : CheckpointManager → ℕ
  saved m = get 0 cid m.checkpoint_reply_count

  abbrev to_save : CheckpointManager → ℕ
  to_save m = get 0 cid m.expected_checkpoint_reply_count

  finish_checkpoint-Counts :
      Counts (finish_checkpoint_reply cid) saved to_save (λ m. get 0 cid m.cid_pid ≡ pid)
  unfolding finish_checkpoint_reply
  finish_checkpoint-Counts m k h = (
    record m { checkpoint_reply_count = set cid (saved m + 1) m.checkpoint_reply_count },
    ground arith,
    ground (arith, get-set 0 cid cid (saved m + 1) m.checkpoint_reply_count),
    refl,
    k,
  )

  finish_checkpoint-acts :
      (m : CheckpointManager)
      → get 0 cid m.cid_pid ≡ pid
      → saved m + 1 ≡ to_save m
      → (m' : CheckpointManager) × (finish_checkpoint_reply cid m
          ≡ some (m', Effect.finish_plan pid ∷ []))
  unfolding finish_checkpoint_reply
  finish_checkpoint-acts m k h = (
    record m {
      checkpoint_reply_count = set cid (saved m + 1) m.checkpoint_reply_count;
      cid_pid = erase cid m.cid_pid;
    },
    ground arith,
  )

-- For a placed collection, Checkpoint records the checkpoint and sends its commands, and of the replies up to
-- the number of partitions exactly the last finishes the plan.
pub finish_checkpoint_reply-finishes :
    (elem : SchedulerElem) (id cid : ℕ) (url : Url) (nodes : List ℕ) (status : CollectionStatus)
    (m : CheckpointManager) (n : ℕ)
    → lookup cid elem.collection_map ≡ some nodes
    → suc n ≤ length nodes
    → (m1 m2 : CheckpointManager) × (checkpoint_collection elem
          (record { id = id; spec = checkpoint cid url })
          status
          m
        ≡ some (m1, add_cp cid url status, checkpoint_commands cid 0 nodes url))
      × (replies (finish_checkpoint_reply cid) (suc n) m1
          ≡ some (m2, if suc n == length nodes then Effect.finish_plan id ∷ [] else []))
unfolding checkpoint_collection
finish_checkpoint_reply-finishes elem id cid url nodes status m n placed le =
    let m1 : CheckpointManager = record {
      checkpoint_reply_count = set cid 0 m.checkpoint_reply_count;
      expected_checkpoint_reply_count = set cid (length nodes) m.expected_checkpoint_reply_count;
      cid_pid = set cid id m.cid_pid;
    } in
    let zero_yet : saved cid id m1 ≡ 0 =
      ground (arith, get-set 0 cid cid 0 m.checkpoint_reply_count) in
    let all : to_save cid id m1 ≡ length nodes =
      ground (arith, get-set 0 cid cid (length nodes) m.expected_checkpoint_reply_count) in
    let (m2, e) =
      replies-acts (finish_checkpoint_reply cid) (saved cid id) (to_save cid id)
        (finish_checkpoint-Counts cid id) (Effect.finish_plan id) (finish_checkpoint-acts cid id) n
        m1 (ground (arith, get-set 0 cid cid id m.cid_pid)) (omega (arith, zero_yet, all, le)) in
    let sum : saved cid id m1 + suc n ≡ suc n = omega (arith, zero_yet) in
    (m1, m2, ground (arith, placed), rw (sum, all) at e)
