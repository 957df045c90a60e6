-- ===== src/Examples/Managers.antt =====
-- Collection 8 has three partitions on nodes 1 and 2: replies to the managers of core/scheduler, one after the other.
use tangram.Base.{
  ℕ, ◌<◌, true, false, some, List, [], ◌∷◌, Map, ◌≡◌, refl, arith, lookup, set, get, size, length,
  member, get_elem?, if◌then◌else◌, ◌==◌, ◌⊎◌, ◌&&◌,
}
use tangram.Plan.Spec.{Url}
use tangram.Scheduler.Elem.{SchedulerElem, Callback, Effect, WorkerCommand, to_all_workers, call}
use tangram.Scheduler.Replies.{replies}
use tangram.Scheduler.CollectionManager.{CollectionManager}
use tangram.Scheduler.CheckpointLoader.{
  CheckpointLoader, load_checkpoint, load_checkpoint_partial, load_commands, finish_load_checkpoint,
}
use tangram.Scheduler.CheckpointLoader.Counting.{
  finish_load_checkpoint-calls, load_checkpoint_partial-silent,
}
use tangram.Scheduler.WriteManager.{WriteManager}
use tangram.Scheduler.CheckpointManager.{CheckpointManager}
use tangram.Scheduler.DistributeManager.{DistributeManager, finish_distribute}
use tangram.Scheduler.DistributeManager.Collected.{IsArriving, finish_distribute-collects}
use tangram.Scheduler.RecoverManager.{
  RecoverManager, Step, replace_dead, recover_done_for_a_collection,
}
use tangram.Scheduler.RecoverManager.Replace.{Replaced, replace_dead-Replaced}
use tangram.Scheduler.RecoverManager.Pending.{
  is_pending, same_step, IsRecovered, IsRecovering, recover_done-Recover,
}

abbrev pub placement : List ℕ
placement = 1 ∷ 2 ∷ 1 ∷ []

abbrev pub elem : SchedulerElem
elem = record { nodes = 1 ∷ 2 ∷ []; collection_map = (8, placement) ∷ [] }

abbrev url : Url
url = Url.text "/cp"

abbrev pub idle_collections : CollectionManager
idle_collections = record { received_replies = []; callbacks = [] }

abbrev pub idle_loader : CheckpointLoader
idle_loader = record { reply_count = []; expected_reply_count = []; callbacks = [] }

abbrev pub idle_writes : WriteManager
idle_writes = record { reply_count = []; expected_reply_count = []; cid_pid = [] }

abbrev pub idle_checkpoints : CheckpointManager
idle_checkpoints = record {
  checkpoint_reply_count = [];
  expected_checkpoint_reply_count = [];
  cid_pid = [];
}

placed : lookup 8 elem.collection_map ≡ some placement
unfolding lookup
placed = refl

finish_load_checkpoint-calls_example :
    (l1 l2 : CheckpointLoader) × (load_checkpoint elem 8 url
        (Callback.checkpoint_loaded 8)
        idle_loader
      ≡ some (l1, load_commands 8 0 placement url))
    × (replies (finish_load_checkpoint 8) 3 l1
        ≡ some (l2, call (Callback.checkpoint_loaded 8) ∷ []))
unfolding lookup
finish_load_checkpoint-calls_example =
    finish_load_checkpoint-calls elem 8 url (Callback.checkpoint_loaded 8) placement idle_loader 2
      placed refl (omega arith)

load_checkpoint_partial-silent_example :
    (l1 l2 : CheckpointLoader) × (load_checkpoint_partial elem 8 url []
        (Callback.recover_loaded 8)
        idle_loader
      ≡ some (l1, []))
    × (replies (finish_load_checkpoint 8) 2 l1 ≡ some (l2, []))
load_checkpoint_partial-silent_example =
    load_checkpoint_partial-silent elem 8 url (Callback.recover_loaded 8) placement idle_loader 2
      placed

abbrev arriving : DistributeManager
arriving = record { part_expected = (3, 2) ∷ []; distribute_map = (8, (1, 2) ∷ []) ∷ [] }

one_arrived : IsArriving 2 ((1, 2) ∷ [])
unfolding lookup
one_arrived = record { sorted = (omega arith, tt); numbered = λ k v e. ground arith }

abbrev first_parts : Map ℕ
first_parts = get [] 8 arriving.distribute_map

finish_distribute-collects_example :
    (nodes : List ℕ) × (m' : DistributeManager) × (elem' : SchedulerElem)
    × (collections' : CollectionManager) × (finish_distribute 8 0 1 3 elem idle_collections arriving
        ≡ some (
          (m', elem', collections'),
          to_all_workers (WorkerCommand.update_collection 8 nodes) ∷ [],
        ))
    × (lookup 8 elem'.collection_map ≡ some nodes)
    × (length nodes ≡ get 0 3 arriving.part_expected)
    × ((j : ℕ)
        → j < get 0 3 arriving.part_expected
        → get_elem? nodes j ≡ lookup j (set 0 1 first_parts))
unfolding lookup get size set
finish_distribute-collects_example =
    finish_distribute-collects 8 0 1 3 elem idle_collections arriving one_arrived (omega arith) refl

-- Node 2 has died.
replace_dead-Replaced_example :
    (ns' updates : List ℕ) × (replace_dead (1 ∷ 3 ∷ []) (1 ∷ 3 ∷ []) (2 ∷ []) 0 placement
      ≡ some (ns', updates))
    × Replaced (1 ∷ 3 ∷ []) (2 ∷ []) 0 placement ns' updates
replace_dead-Replaced_example = replace_dead-Replaced (1 ∷ 3 ∷ []) (2 ∷ []) placement (omega arith)

abbrev pub recovering : RecoverManager
recovering = record {
  started = true;
  recovering_collections = 8 ∷ [];
  updating_collections = 8 ∷ [];
  callback = some Callback.all_recovered;
}

recover_done-Recover_example :
    (m' : RecoverManager) × (effects : List Effect) × (recover_done_for_a_collection 8 Step.loaded
        recovering
      ≡ some (m', effects))
    × ((c : ℕ) (r : Step)
        → is_pending c r m'
          ≡ (if same_step Step.loaded r && 8 == c then false else is_pending c r recovering))
    × (IsRecovered Callback.all_recovered m' effects
        ⊎ IsRecovering Callback.all_recovered m' effects)
unfolding member
recover_done-Recover_example =
    recover_done-Recover 8 Step.loaded recovering Callback.all_recovered refl refl refl
