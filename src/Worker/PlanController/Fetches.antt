-- ===== src/Worker/PlanController/Fetches.antt =====
-- core/worker/plan_controller.cpp: fetches of a partition, or of objects in one, for the maps of all nodes.
use tangram.Base.{ℕ, ◌==◌, if◌then◌else◌, not, some, [], ◌∷◌, ◌>>◌, check, set, get, has, pos, decr}
use tangram.Worker.Elem.{fetch, FetchMeta, get_controller_actor_qid}
use tangram.Worker.Partitions.{has_part}
use tangram.Worker.PlanController.{
  PlanController, Result, is_collection, push_waiting, push_buffered,
}
use tangram.Worker.PlanController.Run.{try_run_waiting_joins, run_fetch_request}

-- A fetch of an updated partition waits for the update that runs on it.
unfoldable pub receive_fetch_request : FetchMeta → PlanController → Result
receive_fetch_request f s = do
  check (f.plan_id == s.plan_id)
  check (has_part f.collection_id f.part_id s.partitions)
  check (is_collection f.collection_id s.fetch_collection_id)
  check (f.recver == get_controller_actor_qid s.node_id)
  if not (f.collection_id == s.update_collection_id)
      then run_fetch_request f s
      else if not (has f.part_id s.update_versions)
      then some (push_buffered f.part_id (fetch f) s, [])
      else if has f.part_id s.running_updates
      then some (push_waiting f.part_id (fetch f ∷ []) s, [])
      else run_fetch_request f s

unfoldable pub finish_fetch : ℕ → PlanController → Result
finish_fetch p s = try_run_waiting_joins p (record s {
  running_fetches = set p (decr (get (pos 0) p s.running_fetches)) s.running_fetches;
})
