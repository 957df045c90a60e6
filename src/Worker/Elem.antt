-- ===== src/Worker/Elem.antt =====
-- core/worker/plan_controller.hpp and core/scheduler/control.hpp: what a plan controller receives, keeps and sends.
-- A binary stream is its bytes. Of a message the content is kept; `sender` and `recver` where the code reads
-- them. An id or version of -1 is `none`.
use tangram.Base.{ℕ, ◌+◌, ◌*◌, ◌/◌, Bool, Option, List, [], ◌∷◌, Map}
use tangram.Plan.Spec.{Url}
use tangram.Scheduler.Elem.{ControlCommand, MigrateMeta}

abbrev pub Bytes : Type 0
Bytes = List ℕ

-- The upstream partitions of an update: `upstream_part_id`, or, where that is -1, `ext_upstream_part_ids`.
pub data Upstream : Type 0 where
  part : ℕ → Upstream
  ext : List ℕ → Upstream

-- The ids as the code hands them on: a vector of the one id, or the extended ids.
unfoldable pub upstream_part_ids : Upstream → List ℕ
upstream_part_ids (Upstream.part u) = u ∷ []
upstream_part_ids (ext us) = us

-- VersionedJoinMeta with `is_fetch == false`.
pub record JoinMeta : Type 0 where
  pub part_id : ℕ
  pub upstream : Upstream
  pub version : ℕ
  pub local_mode : Bool
  pub bin : Bytes

-- VersionedJoinMeta with `is_fetch == true`; no version for a fetch of objects.
pub record FetchMeta : Type 0 where
  pub plan_id : ℕ
  pub collection_id : ℕ
  pub part_id : ℕ
  pub upstream_part_id : ℕ
  pub version : Option ℕ
  pub local_mode : Bool
  pub sender : ℕ
  pub recver : ℕ
  pub bin : Bytes

pub data VersionedJoinMeta : Type 0 where
  join : JoinMeta → VersionedJoinMeta
  fetch : FetchMeta → VersionedJoinMeta

-- `map_version` is read only where the map collection is the update collection.
pub record MigrateData : Type 0 where
  pub map_version : ℕ
  pub update_version : ℕ
  pub pending_updates : Map (List VersionedJoinMeta)
  pub waiting_updates : List VersionedJoinMeta
  pub update_tracker : Map (List ℕ)

-- The messages to a plan controller, by their ControllerFlag; those of the scheduler are its commands.
pub data Message : Type 0 where
  control : ControlCommand → Message
  finish_map : (part_id : ℕ) → (update_version : Bool) → Message
  finish_join : (part_id version : ℕ) → (upstream_part_ids : List ℕ) → Message
  receive_join : JoinMeta → Message
  fetch_request : FetchMeta → Message
  finish_fetch : (part_id : ℕ) → Message
  finish_checkpoint : (part_id : ℕ) → Message
  flush_all : MigrateMeta → Message
  migrate_dest : MigrateMeta → MigrateData → Bytes → Message
  receive_map_only : MigrateMeta → (map_version : ℕ) → Bytes → Message

-- A ControllerMsg to the scheduler, by its flag, with the fields that it sets.
pub data Report : Type 0 where
  setup : Report
  map : (part_id version : ℕ) → Report
  join : (part_id version : ℕ) → Report
  finish_migrate : (part_id : ℕ) → Report
  finish : Report

-- What a handler does besides its own state. A `run_…` is a task for an executor; a `push` goes to the
-- controller's own queue. The version of a fetch is `none` where the fetched collection is not updated.
pub data Effect : Type 0 where
  report : Report → Effect
  run_map : (part_id version : ℕ) → Bytes → Effect
  run_join : JoinMeta → Effect
  run_fetch : FetchMeta → Option ℕ → Effect
  reply_part_local : FetchMeta → Option ℕ → Effect
  run_checkpoint : (part_id : ℕ) → Url → Effect
  send : (node_id : ℕ) → Message → Effect
  push : Message → Effect

-- core/queue_node_map.hpp: the ids of a node's queues.
abbrev pub magic : ℕ
magic = 8

unfoldable pub get_node_id : ℕ → ℕ
get_node_id qid = qid / magic

unfoldable pub get_controller_actor_qid : ℕ → ℕ
get_controller_actor_qid nid = nid * magic + 3
