-- ===== src/Worker/PlanController/Run.antt =====
-- core/worker/plan_controller.cpp: starting maps, updates and fetches, and the guards of each.
use tangram.Base.{
  ℕ, ◌+◌, ◌==◌, leb, if◌then◌else◌, Bool, true, false, not, ◌&&◌, ◌||◌, Option, some, none, List,
  [], ◌∷◌, ◌>>=◌, ◌>>◌, check, Map, set, get, has, touch, member, insert, pos, incr, is_pos,
}
use tangram.Worker.Elem.{
  VersionedJoinMeta, join, fetch, JoinMeta, FetchMeta, Upstream, ext, Bytes, run_map, run_join,
  run_fetch, reply_part_local, get_node_id,
}
use tangram.Worker.Partitions.{get_part}
use tangram.Worker.PlanController.{
  PlanController, Result, same_collection, update_fetch, tracked, track, ◌and_then◌,
}

unfoldable pub mark_map : ℕ → PlanController → PlanController
mark_map p s = record s { running_maps = insert p s.running_maps }

-- `RunMap`.
unfoldable pub start_map : ℕ → ℕ → Bytes → PlanController → Result
unfolding mark_map
start_map p v part s = do
  check (not (member p s.running_maps))
  some (mark_map p s, run_map p v part ∷ [])

unfoldable pub is_map_runnable : ℕ → PlanController → Bool
is_map_runnable p s =
    if member p s.running_maps
    then false
    else if same_collection s && has p s.running_updates
    then false
    else if same_collection s && has p s.stop_updating
    then false
    else if get 0 p s.map_versions == s.expected_num_iter
    then false
    else leb (get 0 p s.map_versions) (s.min_version + s.staleness)

unfoldable pub try_run_map : ℕ → ℕ → PlanController → Result
unfolding start_map is_map_runnable
try_run_map p v s =
    if is_map_runnable p s
    then get_part s.map_collection_id p s.partitions >>= (λ part. start_map p v part s)
    else some (s, [])

-- The loop of `TryRunSomeMaps` over a copy of the entries.
unfoldable pub run_some_maps : Map ℕ → PlanController → Result
unfolding try_run_map
run_some_maps [] s = some (s, [])
run_some_maps ((p, v) ∷ m) s = try_run_map p v s and_then run_some_maps m

unfoldable pub try_run_some_maps : PlanController → Result
unfolding run_some_maps
try_run_some_maps s =
    if s.min_version == s.expected_num_iter then some (s, []) else run_some_maps s.map_versions s

-- Whether `t` has each of the ids, or none of them, as `b` says.
unfoldable pub agree : Bool → List ℕ → List ℕ → Bool
agree b [] t = true
agree b (u ∷ us) t = (if b then member u t else not (member u t)) && agree b us t

unfoldable pub is_joined : Upstream → List ℕ → Option Bool
unfolding agree
is_joined (Upstream.part u) t = some (member u t)
is_joined (ext []) t = none
is_joined (ext (u ∷ us)) t = do check (agree (member u t) us t); some (member u t)

-- The look-up makes the entry of the version.
unfoldable pub is_joined_before : JoinMeta → PlanController → Option (Bool × PlanController)
unfolding is_joined tracked track
is_joined_before j s =
    let t = tracked j.part_id j.version s in
    do b ← is_joined j.upstream t; some (b, track j.part_id j.version t s)

unfoldable pub mark_update : JoinMeta → PlanController → PlanController
mark_update j s = record s { running_updates = set j.part_id j.upstream s.running_updates }

-- `RunJoin` of an update that is not joined.
unfoldable pub start_join : JoinMeta → PlanController → Result
unfolding mark_update
start_join j s = do
  check (not (has j.part_id s.running_updates))
  some (mark_update j s, run_join j ∷ [])

unfoldable pub run_fetch_request : FetchMeta → PlanController → Result
unfolding get_node_id
run_fetch_request f s =
    let version = if update_fetch s then some (get 0 f.part_id s.update_versions) else none in
    let local_fetch = get_node_id f.sender == get_node_id f.recver in
    let has_version : Bool = elim (f.version) [ none ↦ false | some _ ↦ true ] in
    let s' = record s {
      running_fetches =
          set f.part_id (incr (get (pos 0) f.part_id s.running_fetches)) s.running_fetches;
      update_versions =
          if update_fetch s then touch 0 f.part_id s.update_versions else s.update_versions;
    } in
    some (
      s',
      (if f.local_mode && has_version && local_fetch
            then reply_part_local f version
            else run_fetch f version)
          ∷ [],
    )

-- Someone updates, fetches or maps the partition.
unfoldable pub is_busy : ℕ → PlanController → Bool
is_busy p s =
    has p s.running_updates
    || (update_fetch s && is_pos (get (pos 0) p s.running_fetches))
    || (same_collection s && member p s.running_maps)

abbrev pub pop_waiting : ℕ → List VersionedJoinMeta → PlanController → PlanController
pop_waiting p w s = record s { waiting_updates = set p w s.waiting_updates }

-- The rest of `TryRunWaitingJoins` on the queue, with `RunJoin`, which tries the next for a joined update.
-- An update waits at its own partition.
unfoldable pub run_waiting : ℕ → List VersionedJoinMeta → PlanController → Result
unfolding is_joined_before start_join run_fetch_request is_busy
run_waiting p [] s = some (pop_waiting p [] s, [])
run_waiting p (fetch f ∷ w) s = run_fetch_request f (pop_waiting p w s)
run_waiting p (join j ∷ w) s = is_joined_before j (pop_waiting p w s) >>= λ r.
    let next = run_waiting p w r.1 in
    let more = if is_busy p r.1 then some (r.1, []) else next in
    if r.0 then more else start_join j r.1

unfoldable pub try_run_waiting_joins : ℕ → PlanController → Result
unfolding is_busy run_waiting
try_run_waiting_joins p s =
    if is_busy p s then some (s, []) else run_waiting p (get [] p s.waiting_updates) s
