-- ===== src/Worker/PlanController/Joins.antt =====
-- core/worker/plan_controller.cpp: updates as they come and end, and the checkpoint after an update.
use tangram.Base.{
  ℕ, ◌+◌, ◌%◌, ◌/◌, ◌==◌, leb, if◌then◌else◌, Bool, not, ◌&&◌, some, List, [], ◌∷◌, ◌++◌, ◌>>=◌,
  ◌>>◌, check, Map, set, erase, get, has, insert, length,
}
use tangram.Worker.Elem.{join, JoinMeta, ext, report, run_checkpoint, Report}
use tangram.Plan.Spec.{cp, checkpoint_url}
use tangram.Worker.PlanController.{
  PlanController, Result, same_collection, tracked, track, ◌and_then◌, push_waiting, push_pending,
  push_buffered, send_one,
}
use tangram.Worker.PlanController.Run.{try_run_some_maps, try_run_waiting_joins, is_joined_before}

-- An update that comes again is left out. Where maps read the updated collection it waits for the map of its version.
unfoldable pub receive_join : JoinMeta → PlanController → Result
receive_join j s =
    if not (has j.part_id s.update_versions)
    then some (push_buffered j.part_id (join j) s, [])
    else is_joined_before j s >>= λ r.
        if r.0
        then some (r.1, [])
        else if same_collection r.1 && leb (get 0 j.part_id r.1.map_versions) j.version
        then some (push_pending j.part_id j.version (join j) r.1, [])
        else try_run_waiting_joins j.part_id (push_waiting j.part_id (join j ∷ []) r.1)

unfoldable pub insert_all : List ℕ → List ℕ → List ℕ
insert_all [] t = t
insert_all (u ∷ us) t = insert_all us (insert u t)

-- `CalcJoinTrackerSize`.
unfoldable pub version_sizes : Map (List ℕ) → ℕ
version_sizes [] = 0
version_sizes ((v, t) ∷ m) = length t + version_sizes m

unfoldable pub tracker_size : Map (Map (List ℕ)) → ℕ
unfolding version_sizes
tracker_size [] = 0
tracker_size ((p, m) ∷ t) = version_sizes m + tracker_size t

unfoldable pub calc_join_tracker_size : PlanController → PlanController
unfolding tracker_size
calc_join_tracker_size s = record s {
  update_tracker_size = s.update_tracker_size ++ tracker_size s.update_tracker ∷ [];
}

-- The URL of a checkpoint, if one is due.
unfoldable pub checkpoint_due : ℕ → PlanController → Bool
checkpoint_due p s =
    not (s.checkpoint_interval == 0) && get 0 p s.update_versions % s.checkpoint_interval == 0

unfoldable pub start_checkpoint : ℕ → PlanController → Result
start_checkpoint p s = do
  check (not (has p s.running_updates))
  path ← s.checkpoint_path
  let iter = get 0 p s.update_versions / s.checkpoint_interval
  some (
    record s { running_updates = set p (ext []) s.running_updates },
    run_checkpoint p (checkpoint_url (cp path iter) s.update_collection_id p) ∷ [],
  )

-- All upstream partitions are joined: the next version.
unfoldable pub complete_join : ℕ → ℕ → PlanController → Result
unfolding calc_join_tracker_size checkpoint_due start_checkpoint
complete_join p version s =
    let s1 = track p version [] (calc_join_tracker_size s) in
    let s2 = record s1 {
      update_versions = set p (get 0 p s1.update_versions + 1) s1.update_versions;
    } in
    if checkpoint_due p s2
    then start_checkpoint p s2
    else send_one (report (Report.join p (get 0 p s2.update_versions))) s2
      and_then try_run_waiting_joins p

unfoldable pub finish_join : ℕ → ℕ → List ℕ → PlanController → Result
unfolding insert_all complete_join
finish_join p version ups s =
    let t = insert_all ups (tracked p version s) in
    let s1 = track p version t (record s { running_updates = erase p s.running_updates }) in
    if length t == s1.num_upstream_part
    then complete_join p version s1
    else try_run_waiting_joins p s1

unfoldable pub finish_checkpoint : ℕ → PlanController → Result
finish_checkpoint p s = do
  check (has p s.running_updates)
  let s1 = record s { running_updates = erase p s.running_updates }
  send_one (report (Report.join p (get 0 p s1.update_versions))) s1
      and_then try_run_waiting_joins p
      and_then try_run_some_maps
