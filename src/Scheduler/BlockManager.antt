-- ===== src/Scheduler/BlockManager.antt =====
-- core/scheduler/block_manager.hpp and block_manager.cpp: a file is loaded as a collection, one partition for each block.
use tangram.Base.{
  ℕ, suc, zero, Option, some, List, [], ◌∷◌, ◌++◌, Map, lookup, set, get, size, if◌then◌else◌, map,
  ◌>>=◌,
}
use tangram.Io.Assigner.{
  Assigner, Slave, LoadBlock, FinishedBlock, StoredBlock, new_assigner, load, finish_block,
}
use tangram.Scheduler.Elem.{SchedulerElem, Effect, WorkerCommand, to_worker, plan_done}
use tangram.Scheduler.CollectionManager.{CollectionManager, update}

-- The hostname and the number of a node, and `num_local_threads`.
pub record NodeInfo : Type 0 where
  pub node : Slave
  pub num_local_threads : ℕ

abbrev node_of : NodeInfo → Slave
node_of n = n.node

abbrev threads_of : NodeInfo → ℕ
threads_of n = n.num_local_threads

pub record BlockManager : Type 0 where
  pub assigners : Map Assigner
  pub stored_blocks : Map (Map StoredBlock)
  pub cid_pid : Map ℕ

-- The messages of the assigner.
unfoldable pub load_commands : List LoadBlock → List Effect
load_commands [] = []
load_commands (b ∷ bs) =
    to_worker b.to (WorkerCommand.load_block b.id b.block b.collection_id) ∷ load_commands bs

-- `builder_` makes a new assigner; `found` is what its browser lists, and `slaves` are the nodes of `elem_`.
unfoldable pub load_collection :
    List (ℕ × ℕ)
    → List NodeInfo
    → (collection_id plan_id : ℕ) → BlockManager
    → Option (BlockManager × List Effect)
unfolding load load_commands
load_collection found slaves collection_id plan_id m = do
  loaded ← load found collection_id (map node_of slaves) (map threads_of slaves) new_assigner
  some (
    record m {
      assigners = set collection_id loaded.0 m.assigners;
      cid_pid = set collection_id plan_id m.cid_pid;
    },
    load_commands loaded.1,
  )

-- `part_to_node`: the nodes of the `n` blocks from `i` on.
unfoldable pub nodes_of : ℕ → ℕ → Map StoredBlock → Option (List ℕ)
nodes_of i zero blocks = some []
nodes_of i (suc n) blocks = do
  b ← lookup i blocks
  rest ← nodes_of (suc i) n blocks
  some (b.node_id ∷ rest)

unfoldable pub finish_block_of :
    FinishedBlock
    → SchedulerElem
    → CollectionManager
    → BlockManager
    → Option ((BlockManager × SchedulerElem × CollectionManager) × List Effect)
unfolding finish_block nodes_of update load_commands
finish_block_of f elem collections m = do
  a ← lookup f.collection_id m.assigners
  r ← finish_block f a
  let m' = record m { assigners = set f.collection_id r.0.0 m.assigners }
  let blocks = r.0.0.finished_blocks
  let complete = (do
    part_to_node ← nodes_of 0 (size blocks) blocks
    let elem' = record elem {
      collection_map = set f.collection_id part_to_node elem.collection_map;
    }
    updated ← update elem' f.collection_id (plan_done (get 0 f.collection_id m.cid_pid)) collections
    some (
      (record m' { stored_blocks = set f.collection_id blocks m.stored_blocks }, elem', updated.0),
      load_commands r.0.1 ++ updated.1,
    ))
  if r.1 then complete else some ((m', elem, collections), load_commands r.0.1)
