-- ===== src/Scheduler/DistributeManager/Collected.antt =====
-- When all partitions have arrived, `FinishDistribute` of core/scheduler/distribute_manager.cpp finds each.
use tangram.Base.{
  ℕ, zero, suc, ◌+◌, ◌≤◌, ◌<◌, true, some, List, [], ◌∷◌, Map, ◌≡◌, refl, arith, lookup,
  lookup_below, set, get, has, size, length, get_elem?, Above, IsSorted, Above-set, lookup-has, ap,
  ◌∙◌, lookup-set_self, lookup-set, insert_new,
}
use tangram.Scheduler.Elem.{SchedulerElem, WorkerCommand, to_all_workers, plan_done}
use tangram.Scheduler.CollectionManager.{CollectionManager, update}
use tangram.Scheduler.DistributeManager.{DistributeManager, collect, finish_distribute}

-- The keys lie in a range of numbers: there are no more of them than numbers.
size-Above :
    (b c : ℕ) (m : Map ℕ)
    → Above b m
    → b ≤ c
    → ((k v : ℕ) → lookup k m ≡ some v → k < c)
    → b + size m ≤ c
unfolding size lookup
size-Above b c [] a le h = omega arith
size-Above b c ((j, w) ∷ m) a le h =
    let here : j < c = h j w (ground arith) in
    let rest =
      size-Above (suc j) c m a.1 here (λ k v e. h k v (ground (arith, lookup_below k (suc j) m))) in
    omega (arith, a.0)

-- If there are as many keys as numbers, every number is a key.
full-has :
    (b c : ℕ) (m : Map ℕ)
    → Above b m
    → ((k v : ℕ) → lookup k m ≡ some v → k < c)
    → b + size m ≡ c
    → (k : ℕ) → b ≤ k
    → k < c
    → has k m ≡ true
unfolding size lookup has
full-has b c [] a h e k le lt = absurd (omega arith)
full-has b c ((j, w) ∷ m) a h e k le lt =
    let here : j < c = h j w (ground arith) in
    let below =
      λ (i v : ℕ) (q : lookup i m ≡ some v). h i v (ground (arith, lookup_below i (suc j) m)) in
    let room = size-Above (suc j) c m a.1 here below in
    ground (arith, λ (p : suc j ≤ k). full-has (suc j) c m a.1 below (omega (arith, a.0)) k p lt)

collect-some :
    (i n : ℕ) (parts : Map ℕ)
    → ((k : ℕ) → i ≤ k → k < i + n → has k parts ≡ true)
    → (nodes : List ℕ) × (collect i n parts ≡ some nodes)
      × (length nodes ≡ n)
      × ((j : ℕ) → j < n → get_elem? nodes j ≡ lookup (i + j) parts)
unfolding collect
collect-some i zero parts h = ([], refl, refl, λ j lt. absurd (omega arith))
collect-some i (suc n) parts h =
    let here = lookup-has 0 i parts (h i (omega arith) (omega arith)) in
    let (nodes, e, len, at) =
      collect-some (suc i) n parts (λ k le lt. h k (omega arith) (omega arith)) in
    (get 0 i parts ∷ nodes, ground (arith, here, e), ground (arith, len), spread nodes here at)
  where
    spread :
        (nodes : List ℕ)
        → lookup i parts ≡ some (get 0 i parts)
        → ((j : ℕ) → j < n → get_elem? nodes j ≡ lookup (suc i + j) parts)
        → (j : ℕ) → j < suc n
        → get_elem? (get 0 i parts ∷ nodes) j ≡ lookup (i + j) parts
    spread nodes here at zero lt = ground (arith, here)
    spread nodes here at (suc j) lt = ground (arith, at j)

-- The partitions that have arrived are numbered below the number of partitions.
pub record IsArriving (n : ℕ) (parts : Map ℕ) : Type 0 where
  pub sorted : IsSorted parts
  pub numbered : (k v : ℕ) → lookup k parts ≡ some v → k < n

set-IsArriving :
    (n part_id node_id : ℕ) (parts : Map ℕ)
    → part_id < n
    → IsArriving n parts
    → IsArriving n (set part_id node_id parts)
set-IsArriving n part_id node_id parts lt a = record {
  sorted = Above-set 0 part_id node_id parts (omega arith) a.sorted;
  numbered = λ k v e. ground (arith, lookup-set k part_id node_id parts, a.numbered k v);
}

-- If the partitions that have arrived are numbered below their expected number and the partition that arrives
-- now completes that number, then FinishDistribute fails no CHECK, inserts the collection with each partition
-- on the node that reported it, and tells all workers.
pub finish_distribute-collects :
    (cid part_id node_id plan_id : ℕ) (elem : SchedulerElem) (collections : CollectionManager)
    (m : DistributeManager)
    → let n = get 0 plan_id m.part_expected in
      let parts = get [] cid m.distribute_map in
      IsArriving n parts
      → part_id < n
      → size (set part_id node_id parts) ≡ n
      → (nodes : List ℕ) × (m' : DistributeManager) × (elem' : SchedulerElem)
        × (collections' : CollectionManager) × (finish_distribute cid part_id node_id plan_id elem
              collections m
            ≡ some (
              (m', elem', collections'),
              to_all_workers (WorkerCommand.update_collection cid nodes) ∷ [],
            ))
        × (lookup cid elem'.collection_map ≡ some nodes)
        × (length nodes ≡ n)
        × ((j : ℕ) → j < n → get_elem? nodes j ≡ lookup j (set part_id node_id parts))
unfolding finish_distribute update
finish_distribute-collects cid part_id node_id plan_id elem collections m a lt full =
    let n = get 0 plan_id m.part_expected in
    let parts = set part_id node_id (get [] cid m.distribute_map) in
    let a' = set-IsArriving n part_id node_id (get [] cid m.distribute_map) lt a in
    let all = full-has 0 n parts a'.sorted a'.numbered (omega (arith, full)) in
    let (nodes, e, len, at) = collect-some 0 n parts (λ k le lt. all k le (omega (arith, lt))) in
    let placed = lookup-set_self cid nodes elem.collection_map in
    let m' : DistributeManager = record m { distribute_map = set cid parts m.distribute_map } in
    let elem' : SchedulerElem = record elem {
      collection_map = set cid nodes elem.collection_map;
    } in
    let collections' : CollectionManager = record {
      received_replies = set cid [] collections.received_replies;
      callbacks = insert_new cid (plan_done plan_id) collections.callbacks;
    } in
    (
      nodes,
      m',
      elem',
      collections',
      ground (arith, full, e, placed),
      placed,
      len,
      λ j lt. at j lt ∙ ap (λ i. lookup i parts) (omega arith),
    )
