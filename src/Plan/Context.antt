-- ===== src/Plan/Context.antt =====
-- core/plan/context.hpp and runner.cpp: how a user's program becomes plans with a graph. A collection is its id, and
-- what users set on the plan that a call returns is an argument of the call. The functions over user types, which
-- the plans register, the names and the mappers are left out.
use Prim.Native.String.{String}
use tangram.Base.{ℕ, ◌+◌, Bool, true, false, Option, none, List, [], ◌∷◌, ◌++◌, length}
use tangram.Plan.Spec.{
  Url, MapJoinSpec, Spec, SpecWrapper, distribute, load, map_join, map_with_join, write, checkpoint,
  load_checkpoint,
}
use tangram.Plan.Dag.{Dag, add_dag_node, empty_dag}
pub mod Built

pub record Context : Type 0 where
  pub num_collections : ℕ
  pub plans : List SpecWrapper
  pub dag : Dag

abbrev pub new_context : Context
new_context = record { num_collections = 0; plans = []; dag = empty_dag }

-- `SetIter`, `SetStaleness` and `SetCheckpointInterval`.
pub record Options : Type 0 where
  pub num_iter : ℕ
  pub staleness : ℕ
  pub checkpoint_interval : ℕ
  pub checkpoint_path : Option String

abbrev pub default_options : Options
default_options = record {
  num_iter = 1;
  staleness = 0;
  checkpoint_interval = 0;
  checkpoint_path = none;
}

-- `collections_.make`: the id of the new collection is the number of those before.
unfoldable pub make_collection : Context → ℕ × Context
make_collection c = (c.num_collections, record c { num_collections = c.num_collections + 1 })

-- `plans_.make` and `GetSpec`, and `AddDagNode` with what the call says that it reads and writes.
unfoldable pub make_plan : Spec → (reads writes : List ℕ) → Context → Context
make_plan spec reads writes c = record c {
  plans = c.plans ++ record { id = length c.plans; spec = spec } ∷ [];
  dag = add_dag_node (length c.plans) reads writes c.dag;
}

-- The calls that make a collection return its id.
unfoldable pub distribute_data : (num_parts : ℕ) → Context → ℕ × Context
unfolding make_collection make_plan
distribute_data n c =
    let (id, c1) = make_collection c in (id, make_plan (distribute id n) [] (id ∷ []) c1)

unfoldable pub load_lines : Url → (is_load_meta is_whole_file : Bool) → Context → ℕ × Context
unfolding make_collection make_plan
load_lines url meta whole c =
    let (id, c1) = make_collection c in (id, make_plan (load id url meta whole) [] (id ∷ []) c1)

unfoldable pub placeholder : (num_parts : ℕ) → Context → ℕ × Context
unfolding make_collection make_plan
placeholder n c =
    let (id, c1) = make_collection c in (id, make_plan (distribute id n) [] (id ∷ []) c1)

unfoldable pub write_collection : ℕ → Url → Context → Context
unfolding make_plan
write_collection id url c = make_plan (write id url) (id ∷ []) [] c

unfoldable pub checkpoint_collection : ℕ → Url → Context → Context
unfolding make_plan
checkpoint_collection id url c = make_plan (checkpoint id url) (id ∷ []) [] c

-- The specification is the one that the scheduler reads from the stream.
unfoldable pub loadcheckpoint : ℕ → Url → Context → Context
unfolding make_plan
loadcheckpoint id url c = make_plan (load_checkpoint id url) [] (id ∷ []) c

unfoldable pub map_join_spec : Options → (map_collection_id update_collection_id : ℕ) → MapJoinSpec
map_join_spec o c1 c2 = record {
  map_collection_id = c1;
  update_collection_id = c2;
  num_iter = o.num_iter;
  staleness = o.staleness;
  checkpoint_interval = o.checkpoint_interval;
  checkpoint_path = o.checkpoint_path;
}

unfoldable pub mapupdate : Options → (c1 c2 : ℕ) → Context → Context
unfolding make_plan map_join_spec
mapupdate o c1 c2 c = make_plan (map_join (map_join_spec o c1 c2)) (c1 ∷ []) (c2 ∷ []) c

unfoldable pub mappartupdate : Options → (c1 c2 : ℕ) → Context → Context
unfolding make_plan map_join_spec
mappartupdate o c1 c2 c = make_plan (map_join (map_join_spec o c1 c2)) (c1 ∷ []) (c2 ∷ []) c

unfoldable pub mappartwithupdate : Options → (c1 c2 c3 : ℕ) → Context → Context
unfolding make_plan map_join_spec
mappartwithupdate o c1 c2 c3 c =
    make_plan (map_with_join (map_join_spec o c1 c3) c2) (c1 ∷ c2 ∷ []) (c3 ∷ []) c

unfoldable pub distribute_by_key : (num_parts : ℕ) → Context → ℕ × Context
unfolding distribute_data placeholder mapupdate
distribute_by_key n c =
    let (tmp, c1) = distribute_data 1 c in
    let (id, c2) = placeholder n c1 in (id, mapupdate default_options tmp id c2)

unfoldable pub foreach : ℕ → Context → Context
unfolding placeholder mapupdate
foreach id c = let (tmp, c1) = placeholder 1 c in mapupdate default_options id tmp c1

unfoldable pub count_collection : ℕ → Context → Context
unfolding placeholder mapupdate foreach
count_collection id c =
    let (tmp, c1) = placeholder 1 c in foreach tmp (mapupdate default_options id tmp c1)

unfoldable pub sort_each_partition : ℕ → Context → Context
unfolding mappartupdate
sort_each_partition id c = mappartupdate default_options id id c
