-- ===== src/Scheduler/CollectionManager.antt =====
-- core/scheduler/collection_manager.hpp and collection_manager.cpp: the workers are told of a collection's
-- placement, and a closure runs when all have replied. No closure asks for the same collection again while it runs, so that
-- it is called here after its entry is erased.
pub mod Replies
use tangram.Base.{
  ℕ, suc, Option, none, some, List, [], ◌∷◌, ◌++◌, Map, lookup, set, get, erase, insert, insert_new,
  length, if◌then◌else◌, ◌==◌, ◌>>=◌,
}
use tangram.Scheduler.Elem.{SchedulerElem, Callback, Effect, WorkerCommand, to_all_workers, call}

pub record CollectionManager : Type 0 where
  pub received_replies : Map (List ℕ)
  pub callbacks : Map Callback

unfoldable pub update :
    SchedulerElem → ℕ → Callback → CollectionManager → Option (CollectionManager × List Effect)
update elem collection_id f m = do
  part_to_node ← lookup collection_id elem.collection_map
  some (
    record {
      received_replies = set collection_id [] m.received_replies;
      callbacks = insert_new collection_id f m.callbacks;
    },
    to_all_workers (WorkerCommand.update_collection collection_id part_to_node) ∷ [],
  )

unfoldable pub finish_update :
    SchedulerElem → ℕ → ℕ → CollectionManager → Option (CollectionManager × List Effect)
finish_update elem collection_id node_id m =
    let replies = insert node_id (get [] collection_id m.received_replies) in
    let done = (do
      f ← lookup collection_id m.callbacks
      some (
        record {
          received_replies = set collection_id [] m.received_replies;
          callbacks = erase collection_id m.callbacks;
        },
        call f ∷ [],
      )) in
    if length replies == length elem.nodes
    then done
    else some (record m { received_replies = set collection_id replies m.received_replies }, [])
