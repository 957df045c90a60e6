-- ===== src/Scheduler/RecoverManager.antt =====
-- core/scheduler/recover_manager.hpp and recover_manager.cpp: after nodes have died, their partitions get live nodes, the
-- collections are loaded from their checkpoints, and a closure runs when all are loaded and all workers know the placement.
pub mod Replace
pub mod Pending
use tangram.Base.{
  ℕ, zero, suc, Bool, true, false, not, ◌&&◌, Option, none, some, List, [], ◌∷◌, ◌++◌, Map, lookup,
  set, member, insert, remove, length, if◌then◌else◌, ◌==◌, check, ◌>>=◌, ◌>>◌,
}
use tangram.Plan.Spec.{Url}
use tangram.Scheduler.Elem.{SchedulerElem, Callback, Effect, call, recover_loaded, recover_updated}
use tangram.Scheduler.CheckpointLoader.{CheckpointLoader, load_checkpoint, load_checkpoint_partial}
use tangram.Scheduler.CollectionManager.{CollectionManager, update}

pub record RecoverManager : Type 0 where
  pub started : Bool
  pub recovering_collections : List ℕ
  pub updating_collections : List ℕ
  pub callback : Option Callback

-- The manager and what it shares with others.
pub record Recovery : Type 0 where
  pub elem : SchedulerElem
  pub loader : CheckpointLoader
  pub collections : CollectionManager
  pub manager : RecoverManager

-- `live_node_iter ++`, from the start again at the end.
abbrev pub advance : List ℕ → List ℕ → List ℕ
advance all [] = all
advance all (x ∷ []) = all
advance all (x ∷ y ∷ rest) = y ∷ rest

-- The loop over the partitions from `i` on: the new nodes, and the partitions that have moved. `rest` is what is left
-- of the live nodes in this turn.
unfoldable pub replace_dead : List ℕ → List ℕ → List ℕ → ℕ → List ℕ → Option (List ℕ × List ℕ)
replace_dead all rest dead i [] = some ([], [])
replace_dead all rest dead i (n ∷ ns) = elim (member n dead) [
  | false ↦ do r ← replace_dead all rest dead (suc i) ns; some (n ∷ r.0, r.1)
  | true ↦ elim rest [
    | [] ↦ none
    | x ∷ xs ↦ do
      r ← replace_dead all (advance all (x ∷ xs)) dead (suc i) ns
      some (x ∷ r.0, i ∷ r.1)
  ]
]

unfoldable pub replace_deadnodes_and_return_updated :
    ℕ → List ℕ → SchedulerElem → Option (SchedulerElem × List ℕ)
unfolding replace_dead
replace_deadnodes_and_return_updated cid dead elem = do
  part_to_node ← lookup cid elem.collection_map
  r ← replace_dead elem.nodes elem.nodes dead 0 part_to_node
  some (record elem { collection_map = set cid r.0 elem.collection_map }, r.1)

abbrev now_recovering : ℕ → RecoverManager → RecoverManager
now_recovering cid m = record m { recovering_collections = insert cid m.recovering_collections }

-- The collections that were being written are loaded whole.
unfoldable pub recover_writes : List ℕ → List (ℕ × Url) → Recovery → Option (Recovery × List Effect)
unfolding replace_deadnodes_and_return_updated load_checkpoint
recover_writes dead [] s = some (s, [])
recover_writes dead ((cid, url) ∷ ws) s = do
  replaced ← replace_deadnodes_and_return_updated cid dead s.elem
  loaded ← load_checkpoint replaced.0 cid url (recover_loaded cid) s.loader
  rest ←
      recover_writes dead ws
        (record s { elem = replaced.0; loader = loaded.0; manager = now_recovering cid s.manager })
  some (rest.0, loaded.1 ++ rest.1)

-- Of the collections that were only read, the lost partitions are loaded.
unfoldable pub recover_reads : List ℕ → List (ℕ × Url) → Recovery → Option (Recovery × List Effect)
unfolding replace_deadnodes_and_return_updated load_checkpoint_partial
recover_reads dead [] s = some (s, [])
recover_reads dead ((cid, url) ∷ rs) s = do
  replaced ← replace_deadnodes_and_return_updated cid dead s.elem
  loaded ← load_checkpoint_partial replaced.0 cid url replaced.1 (recover_loaded cid) s.loader
  rest ←
      recover_reads dead rs
        (record s { elem = replaced.0; loader = loaded.0; manager = now_recovering cid s.manager })
  some (rest.0, loaded.1 ++ rest.1)

unfoldable pub update_all : List (ℕ × Url) → Recovery → Option (Recovery × List Effect)
unfolding update
update_all [] s = some (s, [])
update_all ((cid, url) ∷ cs) s = do
  updated ← update s.elem cid (recover_updated cid) s.collections
  let manager = record (s.manager) {
    updating_collections = insert cid s.manager.updating_collections;
  }
  rest ← update_all cs (record s { collections = updated.0; manager = manager })
  some (rest.0, updated.1 ++ rest.1)

unfoldable pub recover :
    List ℕ → (writes reads : List (ℕ × Url)) → Callback → Recovery → Option (Recovery × List Effect)
unfolding recover_writes recover_reads update_all
recover dead writes reads f s = do
  check (not s.manager.started)
  let s0 = record s {
    manager = record {
      started = true;
      recovering_collections = [];
      updating_collections = [];
      callback = some f;
    };
  }
  w ← recover_writes dead writes s0
  r ← recover_reads dead reads w.0
  uw ← update_all writes r.0
  ur ← update_all reads uw.0
  some (ur.0, w.1 ++ r.1 ++ uw.1 ++ ur.1)

pub data Step : Type 0 where
  loaded updated : Step

-- The end of RecoverDoneForACollection: the closure runs when nothing is pending.
unfoldable pub notify_if_done : RecoverManager → Option (RecoverManager × List Effect)
notify_if_done m =
    let done = (do
      f ← m.callback
      some (record m { started = false; callback = none }, call f ∷ [])) in
    if length m.recovering_collections == 0 && length m.updating_collections == 0
    then done
    else some (m, [])

unfoldable pub recover_done_for_a_collection :
    ℕ → Step → RecoverManager → Option (RecoverManager × List Effect)
unfolding notify_if_done
recover_done_for_a_collection cid Step.loaded m = do
  check m.started
  check (member cid m.recovering_collections)
  notify_if_done (record m { recovering_collections = remove cid m.recovering_collections })
recover_done_for_a_collection cid Step.updated m = do
  check m.started
  check (member cid m.updating_collections)
  notify_if_done (record m { updating_collections = remove cid m.updating_collections })
