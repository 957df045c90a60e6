-- ===== src/Worker/PlanController.antt =====
-- core/worker/plan_controller.hpp: the state of a node's part in one map-update plan, as compiled in the
-- repository: `local_map_mode_` is set, `BGCP` is false, `MIGRATE_JOIN` and `CPULIMIT` are not defined.
-- The unordered maps and the set are kept by ascending keys. `partitions` and `collection_map` stand for the
-- node's PartitionManager and CollectionMap, which `Controller` hands to each plan controller in turn.
use tangram.Base.{
  ℕ, ◌+◌, ◌*◌, ◌≡◌, ◌==◌, ltb, leb, if◌then◌else◌, Bool, true, false, not, ◌&&◌, ◌||◌, Option, some,
  none, List, [], ◌∷◌, ◌++◌, ◌>>=◌, ◌>>◌, check, Map, lookup, set, erase, get, has, touch, member,
  insert, ℤ, pos, incr, is_pos,
}
use tangram.Plan.Spec.{Url}
use tangram.Worker.Elem.{VersionedJoinMeta, join, fetch, Effect, FetchMeta, Upstream, Report, Bytes}
use tangram.Worker.Partitions.{PartitionManager}
use tangram.Worker.StreamStore.{StreamStore}
pub mod Run
pub mod Setup
pub mod Maps
pub mod Joins
pub mod Fetches
pub mod Migrate
pub mod MapOnly
pub mod Process
pub mod Leaves
pub mod IsValid
pub mod Exclusive
pub mod Handlers
pub mod Moves
pub mod Handled
pub mod Marks
pub mod Marked
pub mod Moved
pub mod Tasks
pub mod Versions
pub mod Rounds
pub mod Payload
pub mod RoundTrip
pub mod Late

pub record PlanController : Type 0 where
  pub node_id : ℕ
  pub plan_id : ℕ
  pub map_collection_id : ℕ
  pub update_collection_id : ℕ
  pub fetch_collection_id : Option ℕ
  pub num_upstream_part : ℕ
  pub num_update_part : ℕ
  pub num_local_update_part : ℕ
  pub num_local_map_part : ℕ
  pub checkpoint_interval : ℕ
  pub checkpoint_path : Option Url
  pub min_version : ℕ
  pub staleness : ℕ
  pub expected_num_iter : ℕ
  pub map_versions : Map ℕ
  pub update_versions : Map ℕ
  pub update_tracker : Map (Map (List ℕ))
  pub update_tracker_size : List ℕ
  pub pending_updates : Map (Map (List VersionedJoinMeta))
  pub running_maps : List ℕ
  -- The upstream partition of the update, `ext []` for a checkpoint.
  pub running_updates : Map Upstream
  pub running_fetches : Map ℤ
  pub waiting_updates : Map (List VersionedJoinMeta)
  pub stream_store : StreamStore
  pub flush_all_count : Map ℕ
  pub stop_updating : Map Bool
  pub load_finished : Map Bool
  pub buffered_requests : Map (List VersionedJoinMeta)
  pub partitions : PartitionManager
  pub collection_map : Map (List ℕ)

-- A step of a handler: the new state and what was sent or started; `none` for a failed `CHECK`.
abbrev pub Result : Type 0
Result = Option (PlanController × List Effect)

abbrev pub same_collection : PlanController → Bool
same_collection s = s.map_collection_id == s.update_collection_id

-- Whether the id, which may be -1, is `c`.
unfoldable pub is_collection : ℕ → Option ℕ → Bool
is_collection c none = false
is_collection c (some f) = f == c

abbrev pub update_fetch : PlanController → Bool
update_fetch s = is_collection s.update_collection_id s.fetch_collection_id

-- `update_tracker_[part_id][version]`.
unfoldable pub tracked : ℕ → ℕ → PlanController → List ℕ
tracked p v s = get [] v (get [] p s.update_tracker)

unfoldable pub track : ℕ → ℕ → List ℕ → PlanController → PlanController
track p v t s = record s {
  update_tracker = set p (set v t (get [] p s.update_tracker)) s.update_tracker;
}

-- `waiting_updates_[p].push_back(m)`, and the same of the other two.
unfoldable pub push_waiting : ℕ → List VersionedJoinMeta → PlanController → PlanController
push_waiting p ms s = record s {
  waiting_updates = set p (get [] p s.waiting_updates ++ ms) s.waiting_updates;
}

unfoldable pub push_pending : ℕ → ℕ → VersionedJoinMeta → PlanController → PlanController
push_pending p v m s =
    let inner = get [] p s.pending_updates in
    record s { pending_updates = set p (set v (get [] v inner ++ m ∷ []) inner) s.pending_updates }

unfoldable pub push_buffered : ℕ → VersionedJoinMeta → PlanController → PlanController
push_buffered p m s = record s {
  buffered_requests = set p (get [] p s.buffered_requests ++ m ∷ []) s.buffered_requests;
}

-- The step `next` of the state that `r` leaves, after the effects of `r`.
infixl 5 ◌and_then◌
abbrev pub ◌and_then◌ : Result → (PlanController → Result) → Result
r and_then next = do one ← r; rest ← next one.0; some (rest.0, one.1 ++ rest.1)

unfoldable pub send_one : Effect → PlanController → Result
send_one e s = some (s, e ∷ [])

-- Whether each of the requests is for the partition `p`.
unfoldable pub all_of_part : ℕ → List VersionedJoinMeta → Bool
all_of_part p [] = true
all_of_part p (join j ∷ ms) = j.part_id == p && all_of_part p ms
all_of_part p (fetch f ∷ ms) = f.part_id == p && all_of_part p ms
