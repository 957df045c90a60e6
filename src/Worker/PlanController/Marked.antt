-- ===== src/Worker/PlanController/Marked.antt =====
-- core/worker/plan_controller.cpp: each handler marks the updates that it starts, and frees what has ended.
use tangram.Base.{
  ℕ, ◌+◌, ◌≡◌, refl, arith, ◌==◌, leb, Bool, not, ◌&&◌, Option, some, none, List, [], ◌∷◌, check,
  lookup, set, erase, get, has, has-set, length,
}
use tangram.Worker.Elem.{
  VersionedJoinMeta, JoinMeta, FetchMeta, report, Report, ext, get_controller_actor_qid,
}
use tangram.Worker.Partitions.{has_part}
use tangram.Worker.PlanController.{
  PlanController, same_collection, is_collection, track, tracked, send_one, push_waiting,
  push_pending, push_buffered,
}
use tangram.Worker.PlanController.Leaves.{Ensures, some-Ensures, if-Ensures, bind-Ensures}
use tangram.Worker.PlanController.Run.{try_run_some_maps, is_joined_before, try_run_waiting_joins}
use tangram.Worker.PlanController.Handlers.{check-true}
use tangram.Worker.PlanController.Marks.{
  updates_of, held, Marks, quiet, quiet-Marks, and_then-Marks, from-Marks, try_run_some_maps-Marks,
  try_run_waiting_joins-Marks, run_fetch_request-Marks, is_joined_before-updates,
}
use tangram.Worker.PlanController.Maps.{
  finish_map, release, release_pending, advance_map, erase_stop, leave_map,
}
use tangram.Worker.PlanController.Joins.{
  receive_join, finish_join, finish_checkpoint, complete_join, start_checkpoint, insert_all,
  calc_join_tracker_size, checkpoint_due,
}
use tangram.Worker.PlanController.Fetches.{receive_fetch_request, finish_fetch}

pub report-Marks :
    (x : Report) (s : PlanController) → Ensures (Marks s.running_updates) (send_one (report x) s)
unfolding send_one updates_of
report-Marks x s = quiet-Marks s.running_updates s (report x ∷ []) refl λ q. refl

release-updates :
    (p v : ℕ) (ms : List VersionedJoinMeta) (s : PlanController)
    → (release p v ms s).running_updates ≡ s.running_updates
unfolding release push_waiting
release-updates p v [] s = refl
release-updates p v (m ∷ ms) s = refl

release_pending-Marks :
    (p v : ℕ) (s : PlanController)
    → Ensures (Marks s.running_updates) (try_run_waiting_joins p (release_pending p v s))
unfolding release_pending
release_pending-Marks p v s =
    from-Marks _ s.running_updates _ (release-updates p v (get [] v (get [] p s.pending_updates)) s)
      (try_run_waiting_joins-Marks p (release_pending p v s))

advance_map-Marks :
    (p : ℕ) (o : Option ℕ) (s : PlanController)
    → Ensures (Marks s.running_updates) (advance_map p o s)
unfolding advance_map
advance_map-Marks p none s = quiet-Marks s.running_updates s [] refl quiet
advance_map-Marks p (some last) s =
    and_then-Marks s.running_updates _ try_run_some_maps
      (and_then-Marks s.running_updates _ _ (report-Marks _ _) λ s1.
        if-Ensures (Marks s1.running_updates) (same_collection s1) _ _
          (λ h. release_pending-Marks p last s1)
          (λ h. quiet-Marks s1.running_updates s1 [] refl quiet))
      try_run_some_maps-Marks

leave_map-updates :
    (p : ℕ) (s : PlanController) → (leave_map p s).running_updates ≡ s.running_updates
unfolding leave_map erase_stop
leave_map-updates p s = ground arith

pub finish_map-Marks :
    (p : ℕ) (flag : Bool) (s : PlanController)
    → Ensures (Marks s.running_updates) (finish_map p flag s)
unfolding finish_map
finish_map-Marks p flag s =
    from-Marks _ s.running_updates _ (leave_map-updates p s)
      (advance_map-Marks p (lookup p s.map_versions) (leave_map p s))

pub receive_join-Marks :
    (j : JoinMeta) (s : PlanController) → Ensures (Marks s.running_updates) (receive_join j s)
unfolding receive_join push_buffered push_pending push_waiting
receive_join-Marks j s =
    if-Ensures (Marks s.running_updates) (not (has j.part_id s.update_versions)) _ _
      (λ h. quiet-Marks s.running_updates _ [] refl quiet)
      (λ h. bind-Ensures (Marks s.running_updates) (is_joined_before j s) _ λ (joined, s1) e.
        from-Marks s1.running_updates s.running_updates _ (is_joined_before-updates j s e) (
          if-Ensures (Marks s1.running_updates) joined _ _
            (λ k. quiet-Marks s1.running_updates s1 [] refl quiet)
            (λ k.
              if-Ensures (Marks s1.running_updates)
                (same_collection s1 && leb (get 0 j.part_id s1.map_versions) j.version) _ _
                (λ l. quiet-Marks s1.running_updates _ [] refl quiet)
                (λ l. try_run_waiting_joins-Marks j.part_id _))))

pub receive_fetch_request-Marks :
    (f : FetchMeta) (s : PlanController)
    → Ensures (Marks s.running_updates) (receive_fetch_request f s)
unfolding receive_fetch_request push_buffered push_waiting
receive_fetch_request-Marks f s =
    let M = Marks s.running_updates in
    bind-Ensures M (check (f.plan_id == s.plan_id)) _ λ _ _.
      bind-Ensures M (check (has_part f.collection_id f.part_id s.partitions)) _ λ _ _.
        bind-Ensures M (check (is_collection f.collection_id s.fetch_collection_id)) _ λ _ _.
          bind-Ensures M (check (f.recver == get_controller_actor_qid s.node_id)) _ λ _ _.
            if-Ensures M (not (f.collection_id == s.update_collection_id)) _ _
              (λ h. run_fetch_request-Marks f s)
              (λ h.
                if-Ensures M (not (has f.part_id s.update_versions)) _ _
                  (λ k. quiet-Marks s.running_updates _ [] refl quiet)
                  (λ k.
                    if-Ensures M (has f.part_id s.running_updates) _ _
                      (λ l. quiet-Marks s.running_updates _ [] refl quiet)
                      (λ l. run_fetch_request-Marks f s)))

start_checkpoint-Marks :
    (p : ℕ) (s : PlanController) → Ensures (Marks s.running_updates) (start_checkpoint p s)
unfolding start_checkpoint updates_of held
start_checkpoint-Marks p s =
    let M = Marks s.running_updates in
    bind-Ensures M (check (not (has p s.running_updates))) _ λ u e.
      bind-Ensures M (s.checkpoint_path) _ λ path _. some-Ensures M _ λ q. ground (
        arith,
        check-true (not (has p s.running_updates)) e,
        has-set q p (ext []) s.running_updates,
      )

complete_join-Marks :
    (p v : ℕ) (s : PlanController) → Ensures (Marks s.running_updates) (complete_join p v s)
unfolding complete_join calc_join_tracker_size track
complete_join-Marks p v s =
    let s2 = record (track p v [] (calc_join_tracker_size s)) {
      update_versions = set p (get 0 p s.update_versions + 1) s.update_versions;
    } in
    if-Ensures (Marks s.running_updates) (checkpoint_due p s2) _ _
      (λ h. start_checkpoint-Marks p s2)
      (λ h.
        and_then-Marks s.running_updates _ _ (report-Marks _ s2) (try_run_waiting_joins-Marks p))

-- The end of an update or a checkpoint frees the partition, and then the step goes on from there.
pub finish_join-Marks :
    (p v : ℕ) (ups : List ℕ) (s : PlanController)
    → Ensures (Marks (erase p s.running_updates)) (finish_join p v ups s)
unfolding finish_join track
finish_join-Marks p v ups s =
    let t = insert_all ups (tracked p v s) in
    let s1 = track p v t (record s { running_updates = erase p s.running_updates }) in
    if-Ensures (Marks s1.running_updates) (length t == s.num_upstream_part) _ _
      (λ e. complete_join-Marks p v s1) (λ e. try_run_waiting_joins-Marks p s1)

pub finish_checkpoint-Marks :
    (p : ℕ) (s : PlanController)
    → Ensures (Marks (erase p s.running_updates)) (finish_checkpoint p s)
unfolding finish_checkpoint
finish_checkpoint-Marks p s =
    let m = erase p s.running_updates in
    bind-Ensures (Marks m) (check (has p s.running_updates)) _ λ _ _.
      and_then-Marks m _ _ (and_then-Marks m _ _ (report-Marks _ _) (try_run_waiting_joins-Marks p))
        try_run_some_maps-Marks

pub finish_fetch-Marks :
    (p : ℕ) (s : PlanController) → Ensures (Marks s.running_updates) (finish_fetch p s)
unfolding finish_fetch
finish_fetch-Marks p s = try_run_waiting_joins-Marks p _
