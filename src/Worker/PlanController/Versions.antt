-- ===== src/Worker/PlanController/Versions.antt =====
-- core/worker/plan_controller.cpp: the version of an updated partition, and the upstream partitions joined for the next.
use tangram.Base.{
  ℕ, ◌+◌, ◌≡◌, refl, arith, ◌==◌, if◌then◌else◌, Bool, true, false, not, ◌&&◌, some, List, [], ◌∷◌,
  ◌∙◌, ap, subst, sym, set, erase, get, get-set, get-touch, has, length, check,
}
use tangram.Worker.Elem.{
  VersionedJoinMeta, join, fetch, JoinMeta, FetchMeta, run_join, report, Report,
}
use tangram.Worker.PlanController.{PlanController, track, tracked}
use tangram.Worker.PlanController.Leaves.{
  Leaves, some-Leaves, and_then-Leaves, send_one-Leaves, check-Leaves, if-Leaves, bind-Leaves,
}
use tangram.Worker.PlanController.Run.{
  mark_update, start_join, run_fetch_request, is_busy, is_joined_before, run_waiting, pop_waiting,
  try_run_waiting_joins,
}
use tangram.Worker.PlanController.Exclusive.{is_joined_before-some}
use tangram.Worker.PlanController.Joins.{
  finish_join, complete_join, start_checkpoint, insert_all, calc_join_tracker_size, checkpoint_due,
}

-- The versions and what is joined read the same.
pub record Agrees (s s' : PlanController) : Type 0 where
  pub versions : (p : ℕ) → get 0 p s'.update_versions ≡ get 0 p s.update_versions
  pub joined : (p v : ℕ) → tracked p v s' ≡ tracked p v s
  pub upstream : s'.num_upstream_part ≡ s.num_upstream_part

Agrees-trans : (s t u : PlanController) → Agrees s t → Agrees t u → Agrees s u
Agrees-trans s t u a b = record {
  versions = λ p. b.versions p ∙ a.versions p;
  joined = λ p v. b.joined p v ∙ a.joined p v;
  upstream = b.upstream ∙ a.upstream;
}

Agrees-refl : (s : PlanController) → Agrees s s
Agrees-refl s = record { versions = λ p. refl; joined = λ p v. refl; upstream = refl }

pub tracked-track :
    (p v q u : ℕ) (t : List ℕ) (s : PlanController)
    → tracked q u (track p v t s) ≡ (if p == q && v == u then t else tracked q u s)
unfolding tracked track
tracked-track p v q u t s = ground (
  arith,
  get-set [] q p (set v t (get [] p s.update_tracker)) s.update_tracker,
  get-set [] u v t (get [] p s.update_tracker),
)

-- A look-up that makes an entry reads the same.
is_joined_before-Agrees :
    (j : JoinMeta) (s : PlanController) {b : Bool} {s' : PlanController}
    → is_joined_before j s ≡ some (b, s')
    → Agrees s s'
unfolding track
is_joined_before-Agrees j s e = subst (Agrees s) (sym (is_joined_before-some j s e)) (record {
  versions = λ p. refl;
  joined = λ p v.
      ground (arith, tracked-track j.part_id j.version p v (tracked j.part_id j.version s) s);
  upstream = refl;
})

run_fetch_request-Agrees :
    (f : FetchMeta) (s0 s : PlanController)
    → Agrees s0 s
    → Leaves (Agrees s0) (run_fetch_request f s)
unfolding run_fetch_request tracked
run_fetch_request-Agrees f s0 s a = some-Leaves (Agrees s0) _ _ (record {
  versions = λ p. ground (arith, get-touch 0 p f.part_id s.update_versions, a.versions p);
  joined = λ p v. a.joined p v;
  upstream = a.upstream;
})

start_join-Agrees :
    (j : JoinMeta) (s0 s : PlanController) → Agrees s0 s → Leaves (Agrees s0) (start_join j s)
unfolding start_join mark_update tracked
start_join-Agrees j s0 s a =
    check-Leaves (Agrees s0) (not (has j.part_id s.running_updates)) (mark_update j s)
      (run_join j ∷ [])
      λ e. record {
        versions = λ p. a.versions p;
        joined = λ p v. a.joined p v;
        upstream = a.upstream;
      }

run_waiting-Agrees :
    (p : ℕ) (w : List VersionedJoinMeta) (s0 s : PlanController)
    → Agrees s0 s
    → Leaves (Agrees s0) (run_waiting p w s)
unfolding run_waiting tracked
run_waiting-Agrees p [] s0 s a =
    some-Leaves (Agrees s0) _ _ (
      Agrees-trans s0 s _ a
        (record { versions = λ p. refl; joined = λ p v. refl; upstream = refl }))
run_waiting-Agrees p (fetch f ∷ w) s0 s a =
    run_fetch_request-Agrees f s0 (pop_waiting p w s)
      (record { versions = λ q. a.versions q; joined = λ q v. a.joined q v; upstream = a.upstream })
run_waiting-Agrees p (join j ∷ w) s0 s a =
    bind-Leaves (Agrees s0) (is_joined_before j (pop_waiting p w s)) _ λ (joined, s2) e.
      let a2 = is_joined_before-Agrees j (pop_waiting p w s) e in
      let a3 : Agrees s0 s2 = Agrees-trans s0 s s2 a (record {
        versions = λ p. a2.versions p;
        joined = λ p v. a2.joined p v;
        upstream = a2.upstream;
      }) in
      if-Leaves (Agrees s0) joined _ _
        (λ h.
          if-Leaves (Agrees s0) (is_busy p s2) _ _ (λ k. some-Leaves (Agrees s0) s2 [] a3)
            (λ k. run_waiting-Agrees p w s0 s2 a3))
        (λ h. start_join-Agrees j s0 s2 a3)

try_run_waiting_joins-Agrees :
    (p : ℕ) (s0 s : PlanController) → Agrees s0 s → Leaves (Agrees s0) (try_run_waiting_joins p s)
unfolding try_run_waiting_joins
try_run_waiting_joins-Agrees p s0 s a =
    if-Leaves (Agrees s0) (is_busy p s) _ _ (λ h. some-Leaves (Agrees s0) s [] a)
      (λ h. run_waiting-Agrees p (get [] p s.waiting_updates) s0 s a)

-- The state in which the version is complete.
pub completed : ℕ → ℕ → PlanController → PlanController
completed p v s = record (track p v [] (calc_join_tracker_size s)) {
  update_versions = set p (get 0 p s.update_versions + 1) s.update_versions;
}

complete_join-Agrees :
    (p v : ℕ) (s : PlanController) → Leaves (Agrees (completed p v s)) (complete_join p v s)
unfolding complete_join completed calc_join_tracker_size track start_checkpoint tracked
complete_join-Agrees p v s =
    let s2 = completed p v s in
    if-Leaves (Agrees s2) (checkpoint_due p s2) _ _
      (λ h. bind-Leaves (Agrees s2) (check (not (has p s2.running_updates))) _ λ _ _.
        bind-Leaves (Agrees s2) (s2.checkpoint_path) _ λ path _.
          some-Leaves (Agrees s2) _ _
            (record { versions = λ q. refl; joined = λ q u. refl; upstream = refl }))
      (λ h.
        and_then-Leaves (Agrees s2) _ _
          (send_one-Leaves (Agrees s2) (report (Report.join p (get 0 p s2.update_versions))) s2
            (Agrees-refl s2))
          (λ s3 a. try_run_waiting_joins-Agrees p s2 s3 a))

-- What the end of an update leaves: the upstream partitions joined so far, or the next version.
pub record Joined (p v : ℕ) (ups : List ℕ) (s s' : PlanController) : Type 0 where
  pub version :
      get 0 p s'.update_versions
      ≡ get 0 p s.update_versions
        + (if length (insert_all ups (tracked p v s)) == s.num_upstream_part then 1 else 0)
  pub joined : tracked p v s' ≡ (
      if length (insert_all ups (tracked p v s)) == s.num_upstream_part
      then []
      else insert_all ups (tracked p v s))
  pub upstream : s'.num_upstream_part ≡ s.num_upstream_part

completed-version :
    (p v : ℕ) (s : PlanController)
    → get 0 p (completed p v s).update_versions ≡ get 0 p s.update_versions + 1
unfolding completed
completed-version p v s =
    ground (arith, get-set 0 p p (get 0 p s.update_versions + 1) s.update_versions)

tracked-completed :
    (p v : ℕ) (s : PlanController)
    → tracked p v (completed p v s) ≡ tracked p v (track p v [] (calc_join_tracker_size s))
unfolding completed tracked
tracked-completed p v s = refl

completed-upstream :
    (p v : ℕ) (ups : List ℕ) (s : PlanController)
    → (completed p v (
        track p v ups (record s { running_updates = erase p s.running_updates }))).num_upstream_part
      ≡ s.num_upstream_part
unfolding completed track calc_join_tracker_size
completed-upstream p v ups s = refl

completed-joined : (p v : ℕ) (s : PlanController) → tracked p v (completed p v s) ≡ []
unfolding completed
completed-joined p v s =
    tracked-completed p v s ∙ ground (arith, tracked-track p v p v [] (calc_join_tracker_size s))

-- The state with the upstream partitions of the update joined.
abbrev joined_state : ℕ → ℕ → List ℕ → PlanController → PlanController
joined_state p v ups s =
    track p v (insert_all ups (tracked p v s))
      (record s { running_updates = erase p s.running_updates })

joined_state-joined :
    (p v : ℕ) (ups : List ℕ) (s : PlanController)
    → tracked p v (joined_state p v ups s) ≡ insert_all ups (tracked p v s)
joined_state-joined p v ups s = ground (
  arith,
  tracked-track p v p v (insert_all ups (tracked p v s))
      (record s { running_updates = erase p s.running_updates }),
)

joined_state-version :
    (p v : ℕ) (ups : List ℕ) (s : PlanController)
    → get 0 p (joined_state p v ups s).update_versions ≡ get 0 p s.update_versions
unfolding track
joined_state-version p v ups s = refl

complete_join_Joined :
    (p v : ℕ) (ups : List ℕ) (s s' : PlanController)
    → (length (insert_all ups (tracked p v s)) == s.num_upstream_part) ≡ true
    → Agrees (completed p v (joined_state p v ups s)) s'
    → Joined p v ups s s'
complete_join_Joined p v ups s s' h a = record {
  version = rw h (
      a.versions p
      ∙ completed-version p v (joined_state p v ups s)
      ∙ ap (λ n. n + 1) (joined_state-version p v ups s));
  joined = rw h (a.joined p v ∙ completed-joined p v (joined_state p v ups s));
  upstream = a.upstream ∙ completed-upstream p v (insert_all ups (tracked p v s)) s;
}

more_Joined :
    (p v : ℕ) (ups : List ℕ) (s s' : PlanController)
    → (length (insert_all ups (tracked p v s)) == s.num_upstream_part) ≡ false
    → Agrees (joined_state p v ups s) s'
    → Joined p v ups s s'
unfolding track
more_Joined p v ups s s' h a = record {
  version = rw h (a.versions p ∙ omega arith);
  joined = rw h (a.joined p v ∙ joined_state-joined p v ups s);
  upstream = a.upstream;
}

pub finish_join-Joined :
    (p v : ℕ) (ups : List ℕ) (s : PlanController)
    → Leaves (Joined p v ups s) (finish_join p v ups s)
unfolding finish_join track
finish_join-Joined p v ups s =
    if-Leaves (Joined p v ups s) (length (insert_all ups (tracked p v s)) == s.num_upstream_part) _
      _
      (λ h r e.
        complete_join_Joined p v ups s r.0 h
          (complete_join-Agrees p v (joined_state p v ups s) r e))
      (λ h r e. more_Joined p v ups s r.0 h (
        try_run_waiting_joins-Agrees p (joined_state p v ups s) (joined_state p v ups s)
          (Agrees-refl (joined_state p v ups s)) r e))
