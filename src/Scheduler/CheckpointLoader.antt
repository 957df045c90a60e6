-- ===== src/Scheduler/CheckpointLoader.antt =====
-- core/scheduler/checkpoint_loader.hpp and checkpoint_loader.cpp: each partition of a collection is loaded on its node, and
-- a closure runs when the last has been. No closure asks for the same collection again while it runs, so that it is
-- called here after its entry is erased.
pub mod Counting
pub mod Commands
use tangram.Base.{
  ℕ, suc, ◌+◌, Option, none, some, List, [], ◌∷◌, Map, lookup, set, get, get_elem?, erase,
  insert_new, length, if◌then◌else◌, ◌==◌, ◌>>=◌,
}
use tangram.Plan.Spec.{Url}
use tangram.Scheduler.Elem.{SchedulerElem, Callback, Effect, WorkerCommand, to_worker, call}

pub record CheckpointLoader : Type 0 where
  pub reply_count : Map ℕ
  pub expected_reply_count : Map ℕ
  pub callbacks : Map Callback

unfoldable pub send_load_command : ℕ → ℕ → ℕ → Url → Effect
send_load_command cid part_id node_id url =
    to_worker node_id
      (WorkerCommand.load_checkpoint cid part_id (Url.checkpoint_url url cid part_id))

-- The loop over all partitions, from `i` on.
unfoldable pub load_commands : ℕ → ℕ → List ℕ → Url → List Effect
unfolding send_load_command
load_commands cid i [] url = []
load_commands cid i (node_id ∷ nodes) url =
    send_load_command cid i node_id url ∷ load_commands cid (suc i) nodes url

unfoldable pub load_checkpoint :
    SchedulerElem → ℕ → Url → Callback → CheckpointLoader → Option (CheckpointLoader × List Effect)
unfolding load_commands
load_checkpoint elem cid url f l = do
  nodes ← lookup cid elem.collection_map
  some (
    record {
      reply_count = set cid 0 l.reply_count;
      expected_reply_count = set cid (length nodes) l.expected_reply_count;
      callbacks = insert_new cid f l.callbacks;
    },
    load_commands cid 0 nodes url,
  )

-- The loop over the given partitions.
unfoldable pub load_commands_of : ℕ → List ℕ → List ℕ → Url → Option (List Effect)
unfolding send_load_command
load_commands_of cid [] nodes url = some []
load_commands_of cid (part_id ∷ parts) nodes url = do
  node_id ← get_elem? nodes part_id
  rest ← load_commands_of cid parts nodes url
  some (send_load_command cid part_id node_id url ∷ rest)

unfoldable pub load_checkpoint_partial :
    SchedulerElem
    → ℕ
    → Url
    → List ℕ
    → Callback
    → CheckpointLoader
    → Option (CheckpointLoader × List Effect)
unfolding load_commands_of
load_checkpoint_partial elem cid url parts f l = do
  nodes ← lookup cid elem.collection_map
  sent ← load_commands_of cid parts nodes url
  some (
    record {
      reply_count = set cid 0 l.reply_count;
      expected_reply_count = set cid (length parts) l.expected_reply_count;
      callbacks = insert_new cid f l.callbacks;
    },
    sent,
  )

unfoldable pub finish_load_checkpoint :
    ℕ → CheckpointLoader → Option (CheckpointLoader × List Effect)
finish_load_checkpoint collection_id l =
    let count = get 0 collection_id l.reply_count + 1 in
    let l' = record l { reply_count = set collection_id count l.reply_count } in
    let done = (do
      f ← lookup collection_id l.callbacks
      some (record l' { callbacks = erase collection_id l.callbacks }, call f ∷ [])) in
    if count == get 0 collection_id l.expected_reply_count then done else some (l', [])
