-- ===== src/Plan/Spec.antt =====
-- core/plan/spec_wrapper.hpp: the specifications of plans, and the collections that each reads and writes.
-- An empty `checkpoint_path` is `none`. `kInit` has no specification; `combine_timeout`, descriptions and the distributed data are left out.
use Prim.Native.String.{String}
use tangram.Base.{ℕ, Bool, List, [], ◌∷◌, ◌++◌, if◌then◌else◌, ◌==◌, Option, some, none}

-- A place to store partitions: a given text, and what the code appends to one.
pub data Url : Type 0 where
  text : String → Url
  -- "/cp-" and a number.
  cp : Url → ℕ → Url
  -- "/part-" and a number.
  part : Url → ℕ → Url
  -- `GetCheckpointUrl`: "/c", the collection, "-p" and the partition.
  checkpoint_url : Url → (collection_id partition_id : ℕ) → Url

pub record MapJoinSpec : Type 0 where
  pub map_collection_id : ℕ
  pub update_collection_id : ℕ
  pub num_iter : ℕ
  pub staleness : ℕ
  pub checkpoint_interval : ℕ
  pub checkpoint_path : Option String

pub data Spec : Type 0 where
  distribute : (collection_id num_partition : ℕ) → Spec
  load : (collection_id : ℕ) → Url → (is_load_meta is_whole_file : Bool) → Spec
  map_join : MapJoinSpec → Spec
  map_with_join : MapJoinSpec → (with_collection_id : ℕ) → Spec
  write : (collection_id : ℕ) → Url → Spec
  checkpoint : (cid : ℕ) → Url → Spec
  load_checkpoint : (cid : ℕ) → Url → Spec

pub record SpecWrapper : Type 0 where
  pub id : ℕ
  pub spec : Spec

abbrev pub ReadWriteVector : Type 0
ReadWriteVector = List ℕ × List ℕ

abbrev unless_same : ℕ → ℕ → List ℕ
unless_same a b = if a == b then [] else a ∷ []

unfoldable pub map_join_read_write : MapJoinSpec → ReadWriteVector
map_join_read_write s =
    if s.map_collection_id == s.update_collection_id
    then ([], s.map_collection_id ∷ [])
    else (s.map_collection_id ∷ [], s.update_collection_id ∷ [])

unfoldable pub map_with_join_read_write : MapJoinSpec → ℕ → ReadWriteVector
map_with_join_read_write s w = (
  unless_same s.map_collection_id s.update_collection_id ++ unless_same w s.update_collection_id,
  s.update_collection_id ∷ [],
)

unfoldable pub get_read_write : Spec → ReadWriteVector
unfolding map_join_read_write map_with_join_read_write
get_read_write (distribute c n) = ([], c ∷ [])
get_read_write (load c url meta whole) = ([], c ∷ [])
get_read_write (map_join s) = map_join_read_write s
get_read_write (map_with_join s w) = map_with_join_read_write s w
get_read_write (write c url) = ([], c ∷ [])
get_read_write (checkpoint c url) = (c ∷ [], [])
get_read_write (load_checkpoint c url) = ([], c ∷ [])

-- `SpecWrapper::GetMapJoinSpec`: of the two kinds of map-update plan only.
unfoldable pub get_map_join_spec : Spec → Option MapJoinSpec
get_map_join_spec (map_join s) = some s
get_map_join_spec (map_with_join s w) = some s
get_map_join_spec _ = none
