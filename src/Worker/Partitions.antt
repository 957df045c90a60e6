-- ===== src/Worker/Partitions.antt =====
-- core/partition/partition_manager.cpp: the partitions of a node. A partition is its content as bytes.
use tangram.Base.{
  ℕ, Option, some, none, List, [], Map, lookup, set, erase, get, has, size, Bool, false, ◌==◌,
  if◌then◌else◌, keys,
}
use tangram.Worker.Elem.{Bytes}

abbrev pub PartitionManager : Type 0
PartitionManager = Map (Map Bytes)

unfoldable pub has_part : ℕ → ℕ → PartitionManager → Bool
has_part c p m = elim (lookup c m) [ none ↦ false | some ps ↦ has p ps ]

-- `Get(collection_id, partition_id)`.
unfoldable pub get_part : ℕ → ℕ → PartitionManager → Option Bytes
get_part c p m = lookup p (get [] c m)

-- `Get(collection_id)`: the ids of the partitions.
unfoldable pub get_parts : ℕ → PartitionManager → List ℕ
get_parts c m = keys (get [] c m)

unfoldable pub get_num_local_parts : ℕ → PartitionManager → ℕ
get_num_local_parts c m = size (get [] c m)

unfoldable pub insert_part : ℕ → ℕ → Bytes → PartitionManager → PartitionManager
insert_part c p b m = set c (set p b (get [] c m)) m

unfoldable pub remove_part : ℕ → ℕ → PartitionManager → PartitionManager
remove_part c p m =
    let rest = erase p (get [] c m) in if size rest == 0 then erase c m else set c rest m
