-- ===== src/Worker/PlanController/Exclusive.antt =====
-- core/worker/plan_controller.cpp: an update has its partition to itself.
use tangram.Base.{
  ℕ, ◌≡◌, refl, arith, Bool, true, false, not, ◌&&◌, some, List, [], ◌∷◌, >>=-eq-some, Map, get,
  has, member, pos, incr, has-set, get-set, member-insert,
}
use tangram.Worker.Elem.{
  VersionedJoinMeta, join, fetch, JoinMeta, FetchMeta, Bytes, run_map, run_join,
}
use tangram.Worker.Partitions.{get_part}
use tangram.Worker.PlanController.{
  PlanController, same_collection, update_fetch, track, tracked, all_of_part,
}
use tangram.Worker.PlanController.IsValid.{
  IsValid, is_apart, with_apart, pop_waiting-IsValid, track-IsValid,
}
use tangram.Worker.PlanController.Leaves.{
  check-Leaves, Leaves, some-Leaves, and_then-Leaves, if-Leaves, bind-Leaves,
}
use tangram.Worker.PlanController.Run.{
  mark_map, mark_update, start_map, is_map_runnable, try_run_map, run_some_maps, try_run_some_maps,
  is_joined_before, is_joined, start_join, run_fetch_request, is_busy, run_waiting,
  try_run_waiting_joins, pop_waiting,
}

pub start_map-IsValid :
    (p v : ℕ) (part : Bytes) (s : PlanController)
    → (same_collection s && has p s.running_updates) ≡ false
    → IsValid s
    → Leaves IsValid (start_map p v part s)
unfolding start_map mark_map is_apart
start_map-IsValid p v part s h x =
    check-Leaves IsValid (not (member p s.running_maps)) (mark_map p s) (run_map p v part ∷ []) λ e.
      with_apart s (mark_map p s) x refl refl refl
        λ q. ground (arith, x.apart q, member-insert q p s.running_maps)

try_run_map-IsValid :
    (p v : ℕ) (s : PlanController) → IsValid s → Leaves IsValid (try_run_map p v s)
unfolding try_run_map is_map_runnable
try_run_map-IsValid p v s x =
    if-Leaves IsValid _ _ _
      (λ h.
        bind-Leaves IsValid (get_part s.map_collection_id p s.partitions) _
          λ part e. start_map-IsValid p v part s (ground arith) x)
      (λ h. some-Leaves IsValid s [] x)

run_some_maps-IsValid :
    (m : Map ℕ) (s : PlanController) → IsValid s → Leaves IsValid (run_some_maps m s)
unfolding run_some_maps
run_some_maps-IsValid [] s x = some-Leaves IsValid s [] x
run_some_maps-IsValid ((p, v) ∷ m) s x =
    and_then-Leaves IsValid (try_run_map p v s) (run_some_maps m) (try_run_map-IsValid p v s x)
      (run_some_maps-IsValid m)

pub try_run_some_maps-IsValid :
    (s : PlanController) → IsValid s → Leaves IsValid (try_run_some_maps s)
unfolding try_run_some_maps
try_run_some_maps-IsValid s x =
    if-Leaves IsValid _ _ _ (λ h. some-Leaves IsValid s [] x)
      (λ h. run_some_maps-IsValid s.map_versions s x)

-- An update starts where nobody is at work.
start_join-IsValid :
    (j : JoinMeta) (s : PlanController)
    → is_busy j.part_id s ≡ false
    → IsValid s
    → Leaves IsValid (start_join j s)
unfolding start_join mark_update is_apart is_busy
start_join-IsValid j s h x =
    check-Leaves IsValid (not (has j.part_id s.running_updates)) (mark_update j s) (run_join j ∷ [])
      λ e.
        with_apart s (mark_update j s) x refl refl refl
          λ q. ground (arith, x.apart q, has-set q j.part_id j.upstream s.running_updates)

-- A fetch starts where no update of the fetched collection runs.
pub run_fetch_request-IsValid :
    (f : FetchMeta) (s : PlanController)
    → (update_fetch s && has f.part_id s.running_updates) ≡ false
    → IsValid s
    → Leaves IsValid (run_fetch_request f s)
unfolding run_fetch_request is_apart
run_fetch_request-IsValid f s h x = some-Leaves IsValid _ _ (
    with_apart s _ x refl refl refl λ q. ground (
      arith,
      x.apart q,
      get-set (pos 0) q f.part_id (incr (get (pos 0) f.part_id s.running_fetches))
          s.running_fetches,
    ))

pub is_joined_before-some :
    (j : JoinMeta) (s : PlanController) {b : Bool} {s' : PlanController}
    → is_joined_before j s ≡ some (b, s')
    → s' ≡ track j.part_id j.version (tracked j.part_id j.version s) s
unfolding is_joined_before
is_joined_before-some j s e =
    let (b, e1, e2) = >>=-eq-some (is_joined j.upstream (tracked j.part_id j.version s)) _ e in cc

-- Nobody at work, so no update runs.
is_busy_update :
    (p : ℕ) (s : PlanController) → is_busy p s ≡ false → has p s.running_updates ≡ false
unfolding is_busy
is_busy_update p s h = ground arith

is_busy-track :
    (p q v : ℕ) (t : List ℕ) (s : PlanController) → is_busy p (track q v t s) ≡ is_busy p s
unfolding is_busy track
is_busy-track p q v t s = refl

run_waiting-IsValid :
    (p : ℕ) (w : List VersionedJoinMeta) (s : PlanController)
    → all_of_part p w ≡ true
    → is_busy p s ≡ false
    → IsValid s
    → Leaves IsValid (run_waiting p w s)
unfolding run_waiting all_of_part
run_waiting-IsValid p [] s a b x = some-Leaves IsValid _ _ (pop_waiting-IsValid p [] s refl x)
run_waiting-IsValid p (fetch f ∷ w) s a b x =
    let e : f.part_id ≡ p = ground arith in
    run_fetch_request-IsValid f (pop_waiting p w s)
      (rw e (rw (is_busy_update p s b) (ground arith))) (pop_waiting-IsValid p w s (ground arith) x)
run_waiting-IsValid p (join j ∷ w) s a b x =
    bind-Leaves IsValid (is_joined_before j (pop_waiting p w s)) _ λ (joined, s2) e.
      let e2 = is_joined_before-some j (pop_waiting p w s) e in
      let x2 : IsValid s2 = rw e2 (
        track-IsValid j.part_id j.version _ (pop_waiting p w s)
          (pop_waiting-IsValid p w s (ground arith) x)) in
      let b2 : is_busy p s2 ≡ false =
        rw (e2, is_busy-track p j.part_id j.version _ (pop_waiting p w s)) b in
      let e3 : j.part_id ≡ p = ground arith in
      if-Leaves IsValid joined _ _
        (λ h.
          if-Leaves IsValid (is_busy p s2) _ _ (λ k. some-Leaves IsValid s2 [] x2)
            (λ k. run_waiting-IsValid p w s2 (ground arith) b2 x2))
        (λ h. start_join-IsValid j s2 (rw e3 b2) x2)

pub try_run_waiting_joins-IsValid :
    (p : ℕ) (s : PlanController) → IsValid s → Leaves IsValid (try_run_waiting_joins p s)
unfolding try_run_waiting_joins
try_run_waiting_joins-IsValid p s x =
    if-Leaves IsValid (is_busy p s) _ _ (λ h. some-Leaves IsValid s [] x)
      (λ h. run_waiting-IsValid p (get [] p s.waiting_updates) s (x.waiting p) h x)
