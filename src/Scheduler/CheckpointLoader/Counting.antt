-- ===== src/Scheduler/CheckpointLoader/Counting.antt =====
-- The replies of the workers to one load of core/scheduler/checkpoint_loader.cpp.
use tangram.Base.{
  ℕ, suc, ◌+◌, ◌≤◌, none, some, List, [], ◌∷◌, Map, ◌≡◌, refl, arith, lookup, set, get, erase,
  insert_new, length, if◌then◌else◌, ◌==◌, get-set, lookup-insert_new,
}
use tangram.Plan.Spec.{Url}
use tangram.Scheduler.Elem.{SchedulerElem, Callback, call}
use tangram.Scheduler.Replies.{replies, Counts, replies-acts, replies-late}
use tangram.Scheduler.CheckpointLoader.{
  CheckpointLoader, load_checkpoint, load_commands, load_checkpoint_partial, load_commands_of,
  finish_load_checkpoint,
}

module _ (cid : ℕ) where
  abbrev count : CheckpointLoader → ℕ
  count l = get 0 cid l.reply_count

  abbrev expected : CheckpointLoader → ℕ
  expected l = get 0 cid l.expected_reply_count

  abbrev counted : CheckpointLoader → CheckpointLoader
  counted l = record l { reply_count = set cid (count l + 1) l.reply_count }

  finish_load-Counts :
      (Keeps : Map Callback → Type 0)
      → Counts (finish_load_checkpoint cid) count expected (λ l. Keeps l.callbacks)
  unfolding finish_load_checkpoint
  finish_load-Counts Keeps l k h = (
    counted l,
    ground arith,
    ground (arith, get-set 0 cid cid (count l + 1) l.reply_count),
    refl,
    k,
  )

  finish_load-acts :
      (f : Callback) (l : CheckpointLoader)
      → lookup cid l.callbacks ≡ some f
      → count l + 1 ≡ expected l
      → (l' : CheckpointLoader) × (finish_load_checkpoint cid l ≡ some (l', call f ∷ []))
  unfolding finish_load_checkpoint
  finish_load-acts f l e h =
      (record (counted l) { callbacks = erase cid l.callbacks }, ground arith)

-- If a placed collection has no load under way, then LoadCheckpoint sends its commands, and of the replies up
-- to the number of partitions exactly the last calls the closure.
pub finish_load_checkpoint-calls :
    (elem : SchedulerElem) (cid : ℕ) (url : Url) (f : Callback) (nodes : List ℕ)
    (l : CheckpointLoader) (n : ℕ)
    → lookup cid elem.collection_map ≡ some nodes
    → lookup cid l.callbacks ≡ none
    → suc n ≤ length nodes
    → (l1 l2 : CheckpointLoader) × (load_checkpoint elem cid url f l
        ≡ some (l1, load_commands cid 0 nodes url))
      × (replies (finish_load_checkpoint cid) (suc n) l1
          ≡ some (l2, if suc n == length nodes then call f ∷ [] else []))
unfolding load_checkpoint
finish_load_checkpoint-calls elem cid url f nodes l n placed idle le =
    let l1 : CheckpointLoader = record {
      reply_count = set cid 0 l.reply_count;
      expected_reply_count = set cid (length nodes) l.expected_reply_count;
      callbacks = insert_new cid f l.callbacks;
    } in
    let zero_yet : count cid l1 ≡ 0 = ground (arith, get-set 0 cid cid 0 l.reply_count) in
    let all : expected cid l1 ≡ length nodes =
      ground (arith, get-set 0 cid cid (length nodes) l.expected_reply_count) in
    let registered : lookup cid l1.callbacks ≡ some f =
      ground (arith, lookup-insert_new cid cid f l.callbacks idle) in
    let (l2, e) =
      replies-acts (finish_load_checkpoint cid) (count cid) (expected cid)
        (finish_load-Counts cid (λ m. lookup cid m ≡ some f)) (call f) (finish_load-acts cid f) n l1
        registered (omega (arith, zero_yet, all, le)) in
    let sum : count cid l1 + suc n ≡ suc n = omega (arith, zero_yet) in
    (l1, l2, ground (arith, placed), rw (sum, all) at e)

-- For a placed collection, LoadCheckpointPartial of no partition sends nothing, and no number of replies ever
-- calls its closure.
pub load_checkpoint_partial-silent :
    (elem : SchedulerElem) (cid : ℕ) (url : Url) (f : Callback) (nodes : List ℕ)
    (l : CheckpointLoader) (n : ℕ)
    → lookup cid elem.collection_map ≡ some nodes
    → (l1 l2 : CheckpointLoader) × (load_checkpoint_partial elem cid url [] f l ≡ some (l1, []))
      × (replies (finish_load_checkpoint cid) n l1 ≡ some (l2, []))
unfolding load_checkpoint_partial load_commands_of
load_checkpoint_partial-silent elem cid url f nodes l n placed =
    let l1 : CheckpointLoader = record {
      reply_count = set cid 0 l.reply_count;
      expected_reply_count = set cid 0 l.expected_reply_count;
      callbacks = insert_new cid f l.callbacks;
    } in
    let (l2, e) =
      replies-late (finish_load_checkpoint cid) (count cid) (expected cid)
        (finish_load-Counts cid (λ _. Unit)) n l1 tt
        (ground (arith, get-set 0 cid cid 0 l.expected_reply_count)) in
    (l1, l2, ground (arith, placed), e)
