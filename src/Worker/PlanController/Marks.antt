-- ===== src/Worker/PlanController/Marks.antt =====
-- core/worker/plan_controller.cpp: an update is marked as running exactly when its task is started.
use tangram.Base.{
  ℕ, ◌+◌, ◌≡◌, refl, arith, ◌==◌, if◌then◌else◌, Bool, not, some, List, [], ◌∷◌, ◌++◌, Map, get,
  has, has-set, member, subst, ap,
}
use tangram.Worker.Elem.{
  VersionedJoinMeta, join, fetch, JoinMeta, FetchMeta, Bytes, Effect, report, send, push, run_join,
  run_checkpoint, run_map, run_fetch, reply_part_local, Upstream,
}
use tangram.Worker.Partitions.{get_part}
use tangram.Worker.PlanController.{PlanController, Result, ◌and_then◌, track}
use tangram.Worker.PlanController.Leaves.{
  Ensures, some-Ensures, check-Ensures, if-Ensures, bind-Ensures, and_then-Ensures,
}
use tangram.Worker.PlanController.Run.{
  start_map, mark_map, mark_update, start_join, run_fetch_request, try_run_map, is_map_runnable,
  run_some_maps, try_run_some_maps, is_busy, is_joined_before, run_waiting, pop_waiting,
  try_run_waiting_joins,
}
use tangram.Worker.PlanController.Exclusive.{is_joined_before-some}

-- The tasks among the effects whose end frees the partition `p`.
unfoldable pub updates_of : ℕ → List Effect → ℕ
updates_of p [] = 0
updates_of p (run_join j ∷ es) = (if j.part_id == p then 1 else 0) + updates_of p es
updates_of p (run_checkpoint q u ∷ es) = (if q == p then 1 else 0) + updates_of p es
updates_of p (_ ∷ es) = updates_of p es

unfoldable pub held : ℕ → Map Upstream → ℕ
held p m = if has p m then 1 else 0

-- From the running updates `m` on, each task that a step starts is marked, and nothing else is.
abbrev pub Marks : Map Upstream → PlanController × List Effect → Type 0
Marks m r = (p : ℕ) → held p r.0.running_updates ≡ held p m + updates_of p r.1

updates_of-append :
    (p : ℕ) (xs ys : List Effect) → updates_of p (xs ++ ys) ≡ updates_of p xs + updates_of p ys
unfolding updates_of
updates_of-append p [] ys = omega arith
updates_of-append p (run_join j ∷ es) ys = omega (arith, updates_of-append p es ys)
updates_of-append p (run_checkpoint q u ∷ es) ys = omega (arith, updates_of-append p es ys)
updates_of-append p (report _ ∷ es) ys = updates_of-append p es ys
updates_of-append p (run_map _ _ _ ∷ es) ys = updates_of-append p es ys
updates_of-append p (run_fetch _ _ ∷ es) ys = updates_of-append p es ys
updates_of-append p (reply_part_local _ _ ∷ es) ys = updates_of-append p es ys
updates_of-append p (send _ _ ∷ es) ys = updates_of-append p es ys
updates_of-append p (push _ ∷ es) ys = updates_of-append p es ys

-- A step that starts no update.
pub quiet-Marks :
    (m : Map Upstream) (s : PlanController) (es : List Effect)
    → s.running_updates ≡ m
    → ((p : ℕ) → updates_of p es ≡ 0)
    → Ensures (Marks m) (some (s, es))
quiet-Marks m s es e n = some-Ensures (Marks m) (s, es) λ p. rw (e, n p) (omega arith)

pub and_then-Marks :
    (m : Map Upstream) (r : Result) (next : PlanController → Result)
    → Ensures (Marks m) r
    → ((s : PlanController) → Ensures (Marks s.running_updates) (next s))
    → Ensures (Marks m) (r and_then next)
and_then-Marks m r next h k =
    and_then-Ensures (Marks m) (Marks m) (λ s. Marks s.running_updates) r next h (λ s _ _. k s)
      λ a b x y p. omega (arith, x p, y p, updates_of-append p a.1 b.1)

pub quiet : (p : ℕ) → updates_of p [] ≡ 0
unfolding updates_of
quiet p = refl

pub is_joined_before-updates :
    (j : JoinMeta) (s : PlanController) {b : Bool} {s' : PlanController}
    → is_joined_before j s ≡ some (b, s')
    → s'.running_updates ≡ s.running_updates
unfolding track
is_joined_before-updates j s e = ap (λ t. t.running_updates) (is_joined_before-some j s e)

pub start_map-Marks :
    (p v : ℕ) (part : Bytes) (s : PlanController)
    → Ensures (Marks s.running_updates) (start_map p v part s)
unfolding start_map mark_map updates_of
start_map-Marks p v part s =
    check-Ensures (Marks s.running_updates) (not (member p s.running_maps))
      (mark_map p s, run_map p v part ∷ []) λ e q. omega arith

run_some_maps-Marks :
    (m : Map ℕ) (s : PlanController) → Ensures (Marks s.running_updates) (run_some_maps m s)
unfolding run_some_maps try_run_map
run_some_maps-Marks [] s = quiet-Marks s.running_updates s [] refl quiet
run_some_maps-Marks ((p, v) ∷ m) s =
    and_then-Marks s.running_updates (try_run_map p v s) (run_some_maps m)
      (if-Ensures (Marks s.running_updates) (is_map_runnable p s) _ _
        (λ h.
          bind-Ensures (Marks s.running_updates) (get_part s.map_collection_id p s.partitions) _
            λ part e. start_map-Marks p v part s)
        (λ h. quiet-Marks s.running_updates s [] refl quiet))
      (run_some_maps-Marks m)

pub try_run_some_maps-Marks :
    (s : PlanController) → Ensures (Marks s.running_updates) (try_run_some_maps s)
unfolding try_run_some_maps
try_run_some_maps-Marks s =
    if-Ensures (Marks s.running_updates) _ _ _ (λ h. quiet-Marks s.running_updates s [] refl quiet)
      (λ h. run_some_maps-Marks s.map_versions s)

start_join-Marks :
    (j : JoinMeta) (s : PlanController) → Ensures (Marks s.running_updates) (start_join j s)
unfolding start_join mark_update updates_of held
start_join-Marks j s =
    check-Ensures (Marks s.running_updates) (not (has j.part_id s.running_updates))
      (mark_update j s, run_join j ∷ [])
      λ e q. ground (arith, has-set q j.part_id j.upstream s.running_updates)

pub run_fetch_request-Marks :
    (f : FetchMeta) (s : PlanController) → Ensures (Marks s.running_updates) (run_fetch_request f s)
unfolding run_fetch_request updates_of
run_fetch_request-Marks f s = quiet-Marks s.running_updates _ _ refl λ p. ground arith

pub from-Marks :
    (m m' : Map Upstream) (r : Result) → m ≡ m' → Ensures (Marks m) r → Ensures (Marks m') r
from-Marks m m' r e h = subst (λ n. Ensures (Marks n) r) e h

run_waiting-Marks :
    (p : ℕ) (w : List VersionedJoinMeta) (s : PlanController)
    → Ensures (Marks s.running_updates) (run_waiting p w s)
unfolding run_waiting
run_waiting-Marks p [] s = quiet-Marks s.running_updates _ [] refl quiet
run_waiting-Marks p (fetch f ∷ w) s = run_fetch_request-Marks f (pop_waiting p w s)
run_waiting-Marks p (join j ∷ w) s =
    bind-Ensures (Marks s.running_updates) (is_joined_before j (pop_waiting p w s)) _
      λ (joined, s2) e.
        let u2 = is_joined_before-updates j (pop_waiting p w s) e in
        from-Marks s2.running_updates s.running_updates _ u2 (
          if-Ensures (Marks s2.running_updates) joined _ _
            (λ h.
              if-Ensures (Marks s2.running_updates) (is_busy p s2) _ _
                (λ k. quiet-Marks s2.running_updates s2 [] refl quiet)
                (λ k. run_waiting-Marks p w s2))
            (λ h. start_join-Marks j s2))

pub try_run_waiting_joins-Marks :
    (p : ℕ) (s : PlanController) → Ensures (Marks s.running_updates) (try_run_waiting_joins p s)
unfolding try_run_waiting_joins
try_run_waiting_joins-Marks p s =
    if-Ensures (Marks s.running_updates) (is_busy p s) _ _
      (λ h. quiet-Marks s.running_updates s [] refl quiet)
      (λ h. run_waiting-Marks p (get [] p s.waiting_updates) s)
