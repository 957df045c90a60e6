-- ===== src/Worker/PlanController/Handlers.antt =====
-- core/worker/plan_controller.cpp: each handler keeps updates alone on their partitions.
use tangram.Base.{
  ℕ, ◌+◌, ◌≡◌, refl, arith, ◌==◌, leb, Bool, true, false, not, ◌&&◌, Option, some, none, List, [],
  ◌∷◌, check, lookup, set, erase, get, has, member, pos, decr, is_pos, is_pos-decr, has-set,
  has-erase, get-set, member-remove, length,
}
use tangram.Worker.Elem.{
  VersionedJoinMeta, join, fetch, JoinMeta, FetchMeta, ext, get_controller_actor_qid,
}
use tangram.Worker.Partitions.{has_part}
use tangram.Worker.PlanController.{
  PlanController, same_collection, update_fetch, is_collection, track, tracked, all_of_part,
}
use tangram.Worker.PlanController.IsValid.{
  IsValid, is_apart, with_apart, push_waiting-IsValid, push_buffered-IsValid, pend-IsValid,
  unpend-IsValid, push_pending-IsValid, track-IsValid,
}
use tangram.Worker.PlanController.Leaves.{
  Leaves, some-Leaves, and_then-Leaves, send_one-Leaves, if-Leaves, bind-Leaves,
}
use tangram.Worker.PlanController.Run.{try_run_some_maps, is_joined_before}
use tangram.Worker.PlanController.Exclusive.{
  try_run_some_maps-IsValid, try_run_waiting_joins-IsValid, run_fetch_request-IsValid,
  is_joined_before-some,
}
use tangram.Worker.PlanController.Maps.{
  finish_map, release, release_pending, advance_map, erase_stop, leave_map,
}
use tangram.Worker.PlanController.Joins.{
  receive_join, finish_join, finish_checkpoint, complete_join, start_checkpoint, insert_all,
  calc_join_tracker_size, checkpoint_due,
}
use tangram.Worker.PlanController.Fetches.{receive_fetch_request, finish_fetch}

leave_map-IsValid : (p : ℕ) (s : PlanController) → IsValid s → IsValid (leave_map p s)
unfolding leave_map erase_stop is_apart
leave_map-IsValid p s x =
    with_apart s (leave_map p s) x (ground arith) (ground arith) (ground arith)
      λ q. ground (arith, x.apart q, member-remove q p s.running_maps)

release-IsValid :
    (p v : ℕ) (ms : List VersionedJoinMeta) (s : PlanController)
    → all_of_part p ms ≡ true
    → IsValid s
    → IsValid (release p v ms s)
unfolding release
release-IsValid p v [] s h x = pend-IsValid p v [] s h x
release-IsValid p v (m ∷ ms) s h x = push_waiting-IsValid p (m ∷ ms) _ h (unpend-IsValid p v s x)

release_pending-IsValid :
    (p v : ℕ) (s : PlanController) → IsValid s → IsValid (release_pending p v s)
unfolding release_pending
release_pending-IsValid p v s x =
    release-IsValid p v (get [] v (get [] p s.pending_updates)) s (x.pending p v) x

advance_map-IsValid :
    (p : ℕ) (o : Option ℕ) (s : PlanController) → IsValid s → Leaves IsValid (advance_map p o s)
unfolding advance_map is_apart
advance_map-IsValid p none s x = some-Leaves IsValid s [] x
advance_map-IsValid p (some last) s x =
    and_then-Leaves IsValid _ try_run_some_maps
      (and_then-Leaves IsValid _ _
        (send_one-Leaves IsValid _ _ (with_apart s _ x refl refl refl λ q. x.apart q))
        (λ s1 x1.
          if-Leaves IsValid (same_collection s1) _ _
            (λ h. try_run_waiting_joins-IsValid p _ (release_pending-IsValid p last s1 x1))
            (λ h. some-Leaves IsValid s1 [] x1)))
      try_run_some_maps-IsValid

pub finish_map-IsValid :
    (p : ℕ) (flag : Bool) (s : PlanController) → IsValid s → Leaves IsValid (finish_map p flag s)
unfolding finish_map
finish_map-IsValid p flag s x =
    advance_map-IsValid p (lookup p s.map_versions) (leave_map p s) (leave_map-IsValid p s x)

pub receive_join-IsValid :
    (j : JoinMeta) (s : PlanController) → IsValid s → Leaves IsValid (receive_join j s)
unfolding receive_join all_of_part
receive_join-IsValid j s x =
    if-Leaves IsValid (not (has j.part_id s.update_versions)) _ _
      (λ h. some-Leaves IsValid _ _ (push_buffered-IsValid j.part_id (join j) s (ground arith) x))
      (λ h. bind-Leaves IsValid (is_joined_before j s) _ λ (joined, s1) e.
        let x1 : IsValid s1 =
          rw (is_joined_before-some j s e) (track-IsValid j.part_id j.version _ s x) in
        if-Leaves IsValid joined _ _ (λ k. some-Leaves IsValid s1 [] x1)
          (λ k.
            if-Leaves IsValid
              (same_collection s1 && leb (get 0 j.part_id s1.map_versions) j.version) _ _
              (λ l.
                some-Leaves IsValid _ _
                  (push_pending-IsValid j.part_id j.version (join j) s1 (ground arith) x1))
              (λ l.
                try_run_waiting_joins-IsValid j.part_id _
                  (push_waiting-IsValid j.part_id (join j ∷ []) s1 (ground arith) x1))))

-- The end of an update, or of a checkpoint, frees the partition.
free-IsValid :
    (p : ℕ) (s : PlanController)
    → IsValid s
    → IsValid (record s { running_updates = erase p s.running_updates })
unfolding is_apart
free-IsValid p s x =
    with_apart s _ x refl refl refl λ q. ground (arith, x.apart q, has-erase q p s.running_updates)

start_checkpoint-IsValid :
    (p : ℕ) (s : PlanController)
    → (same_collection s && member p s.running_maps) ≡ false
    → (update_fetch s && is_pos (get (pos 0) p s.running_fetches)) ≡ false
    → IsValid s
    → Leaves IsValid (start_checkpoint p s)
unfolding start_checkpoint is_apart
start_checkpoint-IsValid p s hm hf x =
    bind-Leaves IsValid (check (not (has p s.running_updates))) _ λ c e.
      bind-Leaves IsValid (s.checkpoint_path) _ λ path e1. some-Leaves IsValid _ _ (
        with_apart s _ x refl refl refl
          λ q. ground (arith, x.apart q, has-set q p (ext []) s.running_updates))

complete_join-IsValid :
    (p v : ℕ) (s : PlanController)
    → (same_collection s && member p s.running_maps) ≡ false
    → (update_fetch s && is_pos (get (pos 0) p s.running_fetches)) ≡ false
    → IsValid s
    → Leaves IsValid (complete_join p v s)
unfolding complete_join calc_join_tracker_size track is_apart
complete_join-IsValid p v s hm hf x =
    let s2 = record (track p v [] (calc_join_tracker_size s)) {
      update_versions = set p (get 0 p s.update_versions + 1) s.update_versions;
    } in
    let x2 : IsValid s2 = with_apart s s2 x refl refl refl (λ q. x.apart q) in
    if-Leaves IsValid (checkpoint_due p s2) _ _ (λ h. start_checkpoint-IsValid p s2 hm hf x2)
      (λ h.
        and_then-Leaves IsValid _ _ (send_one-Leaves IsValid _ _ x2)
          (try_run_waiting_joins-IsValid p))

-- An update ends that has run.
pub finish_join-IsValid :
    (p v : ℕ) (ups : List ℕ) (s : PlanController)
    → has p s.running_updates ≡ true
    → IsValid s
    → Leaves IsValid (finish_join p v ups s)
unfolding finish_join is_apart track
finish_join-IsValid p v ups s h x =
    let t = insert_all ups (tracked p v s) in
    let s1 = track p v t (record s { running_updates = erase p s.running_updates }) in
    let x1 = track-IsValid p v t _ (free-IsValid p s x) in
    if-Leaves IsValid (length t == s.num_upstream_part) _ _
      (λ e. complete_join-IsValid p v s1 (ground (arith, x.apart p)) (ground (arith, x.apart p)) x1)
      (λ e. try_run_waiting_joins-IsValid p s1 x1)

pub finish_checkpoint-IsValid :
    (p : ℕ) (s : PlanController) → IsValid s → Leaves IsValid (finish_checkpoint p s)
unfolding finish_checkpoint
finish_checkpoint-IsValid p s x = bind-Leaves IsValid (check (has p s.running_updates)) _ λ c e.
    and_then-Leaves IsValid _ _
      (and_then-Leaves IsValid _ _ (send_one-Leaves IsValid _ _ (free-IsValid p s x))
        (try_run_waiting_joins-IsValid p))
      try_run_some_maps-IsValid

pub check-true : (b : Bool) {u : Unit {0}} → check b ≡ some u → b ≡ true
check-true true e = refl
check-true false e = cc

not_update_fetch :
    (c u : ℕ) (o : Option ℕ)
    → is_collection c o ≡ true
    → (c == u) ≡ false
    → is_collection u o ≡ false
unfolding is_collection
not_update_fetch c u none h k = refl
not_update_fetch c u (some f) h k = ground arith

pub receive_fetch_request-IsValid :
    (f : FetchMeta) (s : PlanController) → IsValid s → Leaves IsValid (receive_fetch_request f s)
unfolding receive_fetch_request all_of_part
receive_fetch_request-IsValid f s x = bind-Leaves IsValid (check (f.plan_id == s.plan_id)) _ λ _ _.
    bind-Leaves IsValid (check (has_part f.collection_id f.part_id s.partitions)) _ λ _ _.
      bind-Leaves IsValid (check (is_collection f.collection_id s.fetch_collection_id)) _ λ _ e.
        bind-Leaves IsValid (check (f.recver == get_controller_actor_qid s.node_id)) _ λ _ _.
          if-Leaves IsValid (not (f.collection_id == s.update_collection_id)) _ _
            (λ h.
              run_fetch_request-IsValid f s
                (rw
                  (not_update_fetch f.collection_id s.update_collection_id s.fetch_collection_id
                    (check-true _ e) (ground arith))
                  refl)
                x)
            (λ h.
              if-Leaves IsValid (not (has f.part_id s.update_versions)) _ _
                (λ k.
                  some-Leaves IsValid _ _
                    (push_buffered-IsValid f.part_id (fetch f) s (ground arith) x))
                (λ k.
                  if-Leaves IsValid (has f.part_id s.running_updates) _ _
                    (λ l.
                      some-Leaves IsValid _ _
                        (push_waiting-IsValid f.part_id (fetch f ∷ []) s (ground arith) x))
                    (λ l. run_fetch_request-IsValid f s (ground arith) x)))

pub finish_fetch-IsValid :
    (p : ℕ) (s : PlanController) → IsValid s → Leaves IsValid (finish_fetch p s)
unfolding finish_fetch is_apart
finish_fetch-IsValid p s x = try_run_waiting_joins-IsValid p _ (
    with_apart s _ x refl refl refl λ q. ground (
      arith,
      x.apart q,
      get-set (pos 0) q p (decr (get (pos 0) p s.running_fetches)) s.running_fetches,
      is_pos-decr (get (pos 0) p s.running_fetches),
    ))
