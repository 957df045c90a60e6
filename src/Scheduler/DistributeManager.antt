-- ===== src/Scheduler/DistributeManager.antt =====
-- core/scheduler/distribute_manager.hpp and distribute_manager.cpp: data of the program is spread over the nodes, and
-- becomes a collection when all partitions have arrived. The data itself is left out.
pub mod Collected
use tangram.Base.{
  ℕ, zero, suc, Option, none, some, List, [], ◌∷◌, Map, lookup, set, get, size, if◌then◌else◌, ◌==◌,
  ◌>>=◌,
}
use tangram.Scheduler.Elem.{SchedulerElem, Callback, Effect, WorkerCommand, to_worker, plan_done}
use tangram.Scheduler.CollectionManager.{CollectionManager, update}
use tangram.Scheduler.RecoverManager.{advance}

pub record DistributeManager : Type 0 where
  pub part_expected : Map ℕ
  pub distribute_map : Map (Map ℕ)

-- The loop over the `n` partitions from `i` on. `rest` is what is left of the nodes in this turn.
unfoldable pub round_robin : ℕ → ℕ → List ℕ → List ℕ → ℕ → ℕ → Option (List Effect)
round_robin plan_id collection_id all rest i zero = some []
round_robin plan_id collection_id all rest i (suc n) = elim rest [
  | [] ↦ none
  | x ∷ xs ↦ do
    sent ← round_robin plan_id collection_id all (advance all (x ∷ xs)) (suc i) n
    some (to_worker x (WorkerCommand.distribute i plan_id collection_id) ∷ sent)
]

unfoldable pub distribute :
    ℕ → ℕ → ℕ → SchedulerElem → DistributeManager → Option (DistributeManager × List Effect)
unfolding round_robin
distribute plan_id collection_id num_partition elem m = do
  sent ← round_robin plan_id collection_id elem.nodes elem.nodes 0 num_partition
  some (record m { part_expected = set plan_id num_partition m.part_expected }, sent)

-- `part_to_node`: the nodes of the `n` partitions from `i` on.
unfoldable pub collect : ℕ → ℕ → Map ℕ → Option (List ℕ)
collect i zero parts = some []
collect i (suc n) parts = do
  node_id ← lookup i parts
  rest ← collect (suc i) n parts
  some (node_id ∷ rest)

unfoldable pub finish_distribute :
    (collection_id part_id node_id plan_id : ℕ)
    → SchedulerElem
    → CollectionManager
    → DistributeManager
    → Option ((DistributeManager × SchedulerElem × CollectionManager) × List Effect)
unfolding collect update
finish_distribute collection_id part_id node_id plan_id elem collections m =
    let parts = set part_id node_id (get [] collection_id m.distribute_map) in
    let m' = record m { distribute_map = set collection_id parts m.distribute_map } in
    let expected = get 0 plan_id m.part_expected in
    let complete = (do
      part_to_node ← collect 0 expected parts
      let elem' = record elem {
        collection_map = set collection_id part_to_node elem.collection_map;
      }
      updated ← update elem' collection_id (plan_done plan_id) collections
      some ((m', elem', updated.0), updated.1)) in
    if size parts == expected then complete else some ((m', elem, collections), [])
