-- ===== src/Scheduler/WriteManager/Counting.antt =====
-- The replies to one Write of core/scheduler/write_manager.cpp.
use tangram.Base.{
  ℕ, suc, ◌+◌, ◌≤◌, some, List, [], ◌∷◌, ◌≡◌, refl, arith, lookup, set, get, length, if◌then◌else◌,
  ◌==◌, get-set,
}
use tangram.Plan.Spec.{Url, write}
use tangram.Scheduler.Elem.{SchedulerElem, Effect}
use tangram.Scheduler.Replies.{replies, Counts, replies-acts}
use tangram.Scheduler.WriteManager.{
  WriteManager, write_collection, write_commands, finish_write_partition,
}

module _ (cid pid : ℕ) where
  abbrev written : WriteManager → ℕ
  written m = get 0 cid m.reply_count

  abbrev to_write : WriteManager → ℕ
  to_write m = get 0 cid m.expected_reply_count

  finish_write-Counts :
      Counts (finish_write_partition cid) written to_write (λ m. get 0 cid m.cid_pid ≡ pid)
  unfolding finish_write_partition
  finish_write-Counts m k h = (
    record m { reply_count = set cid (written m + 1) m.reply_count },
    ground arith,
    ground (arith, get-set 0 cid cid (written m + 1) m.reply_count),
    refl,
    k,
  )

  finish_write-acts :
      (m : WriteManager)
      → get 0 cid m.cid_pid ≡ pid
      → written m + 1 ≡ to_write m
      → (m' : WriteManager) × (finish_write_partition cid m
          ≡ some (m', Effect.finish_plan pid ∷ []))
  unfolding finish_write_partition
  finish_write-acts m k h =
      (record m { reply_count = set cid (written m + 1) m.reply_count }, ground arith)

-- For a placed collection, Write sends its commands, and of the replies up to the number of partitions exactly
-- the last finishes the plan.
pub finish_write_partition-finishes :
    (elem : SchedulerElem) (id cid : ℕ) (url : Url) (nodes : List ℕ) (m : WriteManager) (n : ℕ)
    → lookup cid elem.collection_map ≡ some nodes
    → suc n ≤ length nodes
    → (m1 m2 : WriteManager) × (write_collection elem (record { id = id; spec = write cid url }) m
        ≡ some (m1, write_commands cid 0 nodes url))
      × (replies (finish_write_partition cid) (suc n) m1
          ≡ some (m2, if suc n == length nodes then Effect.finish_plan id ∷ [] else []))
unfolding write_collection
finish_write_partition-finishes elem id cid url nodes m n placed le =
    let m1 : WriteManager = record {
      reply_count = set cid 0 m.reply_count;
      expected_reply_count = set cid (length nodes) m.expected_reply_count;
      cid_pid = set cid id m.cid_pid;
    } in
    let zero_yet : written cid id m1 ≡ 0 = ground (arith, get-set 0 cid cid 0 m.reply_count) in
    let all : to_write cid id m1 ≡ length nodes =
      ground (arith, get-set 0 cid cid (length nodes) m.expected_reply_count) in
    let (m2, e) =
      replies-acts (finish_write_partition cid) (written cid id) (to_write cid id)
        (finish_write-Counts cid id) (Effect.finish_plan id) (finish_write-acts cid id) n m1
        (ground (arith, get-set 0 cid cid id m.cid_pid)) (omega (arith, zero_yet, all, le)) in
    let sum : written cid id m1 + suc n ≡ suc n = omega (arith, zero_yet) in
    (m1, m2, ground (arith, placed), rw (sum, all) at e)
