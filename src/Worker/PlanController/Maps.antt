-- ===== src/Worker/PlanController/Maps.antt =====
-- core/worker/plan_controller.cpp: the end of a map.
use tangram.Base.{
  ℕ, ◌+◌, if◌then◌else◌, Bool, false, Option, some, none, List, [], ◌∷◌, lookup, set, erase, get,
  remove,
}
use tangram.Worker.Elem.{VersionedJoinMeta, report, Report}
use tangram.Worker.PlanController.{
  PlanController, Result, same_collection, ◌and_then◌, push_waiting, send_one,
}
use tangram.Worker.PlanController.Run.{try_run_some_maps, try_run_waiting_joins}

-- An erasable stop of the partition is erased.
unfoldable pub erase_stop : ℕ → PlanController → PlanController
erase_stop p s =
    if get false p s.stop_updating then record s { stop_updating = erase p s.stop_updating } else s

-- The updates that wait for the map of `version` are free to run.
unfoldable pub release : ℕ → ℕ → List VersionedJoinMeta → PlanController → PlanController
release p version [] s =
    let inner = get [] p s.pending_updates in
    record s { pending_updates = set p (set version [] inner) s.pending_updates }
release p version (m ∷ ms) s =
    let inner = get [] p s.pending_updates in
    push_waiting p (m ∷ ms)
      (record s { pending_updates = set p (erase version inner) s.pending_updates })

unfoldable pub release_pending : ℕ → ℕ → PlanController → PlanController
unfolding release
release_pending p version s = release p version (get [] version (get [] p s.pending_updates)) s

-- The map of version `last` has ended; a map of a partition that is not here counts for nothing.
unfoldable pub advance_map : ℕ → Option ℕ → PlanController → Result
unfolding release_pending
advance_map p none s = some (s, [])
advance_map p (some last) s =
    send_one (report (Report.map p (last + 1)))
      (record s { map_versions = set p (last + 1) s.map_versions })
    and_then (λ s1.
        if same_collection s1
        then try_run_waiting_joins p (release_pending p last s1)
        else some (s1, []))
    and_then try_run_some_maps

unfoldable pub leave_map : ℕ → PlanController → PlanController
unfolding erase_stop
leave_map p s = erase_stop p (record s { running_maps = remove p s.running_maps })

-- The flag `update_version` is read only where `MIGRATE_JOIN` is defined.
unfoldable pub finish_map : ℕ → Bool → PlanController → Result
unfolding leave_map advance_map
finish_map p flag s = advance_map p (lookup p s.map_versions) (leave_map p s)
