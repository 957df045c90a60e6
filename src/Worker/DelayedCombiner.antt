-- ===== src/Worker/DelayedCombiner.antt =====
-- core/worker/delayed_combiner.cpp: when the output of a map is sent to the updated partitions, alone or combined.
-- A stream is a buffer of messages with the two operations of AbstractMapOutputStream; the tasks of the
-- combiner's executor are run at once.
use tangram.Base.{
  ℕ, zero, suc, ◌+◌, ◌≡◌, ◌==◌, ltb, leb, if◌then◌else◌, Bool, true, false, not, ◌&&◌, Option, some,
  none, List, [], ◌∷◌, ◌++◌, map, length, get_elem?, write_at, ◌>>=◌, ◌>>◌, check, Map, lookup, set,
  erase, get, ℤ, pos, negsuc,
}
use tangram.Worker.Elem.{Bytes, JoinMeta, ext, Message, get_controller_actor_qid}
use tangram.Worker.StreamStore.{StreamStore, stream_key, insert_stream}
pub mod Shuffle

-- A stream with its upstream partition.
abbrev pub StreamPair {ℓ} : Type ℓ → Type ℓ
StreamPair S = ℕ × S

-- One call of `PrepareMsgAndSend`.
pub record Output {ℓ} (S : Type ℓ) : Type ℓ where
  pub part_id : ℕ
  pub version : ℕ
  pub upstream_part_ids : List ℕ
  pub stream : S

pub record DelayedCombiner {ℓ} (S : Type ℓ) : Type ℓ where
  pub store : List (Map (List (StreamPair S)))
  pub combine_timeout : ℤ

module _ {ℓ} {S : Type ℓ} (append : S → S → S) (combine : S → S) where
  unfoldable pub append_all : S → List (StreamPair S) → S
  append_all s [] = s
  append_all s ((u, t) ∷ v) = append_all (append s t) v

  unfoldable pub upstreams : List (StreamPair S) → List ℕ
  upstreams [] = []
  upstreams ((u, t) ∷ v) = u ∷ upstreams v

  -- `CombineSerializeSend`: the streams as one, in the order in which they came.
  unfoldable pub combine_serialize_send : ℕ → ℕ → List (StreamPair S) → Option (Output S)
  unfolding append_all upstreams
  combine_serialize_send part_id version [] = none
  combine_serialize_send part_id version ((u, s) ∷ v) = some (record {
    part_id = part_id;
    version = version;
    upstream_part_ids = u ∷ upstreams v;
    stream = combine (append_all s v);
  })

  abbrev alone : ℕ → ℕ → ℕ → S → Output S
  alone part_id version u s = record {
    part_id = part_id;
    version = version;
    upstream_part_ids = u ∷ [];
    stream = s;
  }

  -- The streams of a version wait until there is one of each map partition of the node.
  unfoldable pub add_waiting :
      (num_local_map_part upstream version part_id : ℕ)
      → S
      → DelayedCombiner S
      → Option (DelayedCombiner S × List (Output S))
  unfolding combine_serialize_send
  add_waiting n u version p s d = do
    versions ← get_elem? d.store p
    let streams = get [] version versions ++ (u, s) ∷ []
    if length streams == n
        then (combine_serialize_send p version streams >>= λ o.
            some (record d { store = write_at d.store p (erase version versions) }, o ∷ []))
        else some (record d { store = write_at d.store p (set version streams versions) }, [])

  unfoldable pub add_stream :
      (num_local_map_part upstream version part_id : ℕ)
      → S
      → DelayedCombiner S
      → Option (DelayedCombiner S × List (Output S))
  unfolding add_waiting
  add_stream n u version p s d = elim (d.combine_timeout) [
    | negsuc _ ↦ some (d, alone p version u s ∷ [])
    | pos zero ↦ some (d, alone p version u (combine s) ∷ [])
    | pos (suc _) ↦ add_waiting n u version p s d
  ]

  unfoldable pub add_streams :
      (num_local_map_part upstream version part_id : ℕ)
      → List S
      → DelayedCombiner S
      → Option (DelayedCombiner S × List (Output S))
  unfolding add_stream
  add_streams n u version p [] d = some (d, [])
  add_streams n u version p (s ∷ ss) d = do
    one ← add_stream n u version p s d
    rest ← add_streams n u version (p + 1) ss one.0
    some (rest.0, one.1 ++ rest.1)

  -- A stream for each partition of the updated collection.
  unfoldable pub add_map_output :
      (num_local_map_part num_update_part upstream version : ℕ)
      → List S
      → DelayedCombiner S
      → Option (DelayedCombiner S × List (Output S))
  unfolding add_streams
  add_map_output n num_update u version ss d = do
    check (length ss == num_update)
    add_streams n u version 0 ss d

  unfoldable pub submit_versions : ℕ → Map (List (StreamPair S)) → List (Output S)
  unfolding combine_serialize_send
  submit_versions p [] = []
  submit_versions p ((version, v) ∷ m) =
      let rest = submit_versions p m in
      elim (combine_serialize_send p version v) [ none ↦ rest | some o ↦ o ∷ rest ]

  unfoldable pub submit_parts : ℕ → List (Map (List (StreamPair S))) → List (Output S)
  unfolding submit_versions
  submit_parts p [] = []
  submit_parts p (m ∷ ms) = submit_versions p m ++ submit_parts (p + 1) ms

  -- One round of `PeriodicCombine`: everything is sent.
  unfoldable pub periodic_combine : DelayedCombiner S → DelayedCombiner S × List (Output S)
  unfolding submit_parts
  periodic_combine d = (record d { store = map (λ _. []) d.store }, submit_parts 0 d.store)

-- Where `PrepareMsgAndSend` sends a serialised stream: by the store of the node to its own queue, or by the
-- intermediate store to another node.
pub data Delivery : Type 0 where
  push_local : Message → Delivery
  add_intermediate : (recver : ℕ) → Message → Delivery

unfoldable pub prepare_msg_and_send :
    (node_id update_collection_id : ℕ)
    → Map (List ℕ)
    → Output Bytes
    → StreamStore
    → Option (StreamStore × Delivery)
prepare_msg_and_send n c collections o store = do
  view ← lookup c collections
  to ← get_elem? view o.part_id
  let is_local = get_controller_actor_qid to == get_controller_actor_qid n
  let meta : JoinMeta = record {
    part_id = o.part_id;
    upstream = ext o.upstream_part_ids;
    version = o.version;
    local_mode = is_local;
    bin = if is_local then [] else o.stream;
  }
  if is_local
      then (insert_stream (stream_key o.part_id o.upstream_part_ids o.version) o.stream store
          >>= λ store'. some (store', push_local (Message.receive_join meta)))
      else some (store, add_intermediate (get_controller_actor_qid to) (Message.receive_join meta))
