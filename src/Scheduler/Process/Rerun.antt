-- ===== src/Scheduler/Process/Rerun.antt =====
-- `Scheduler::FinishRecovery` of core/scheduler/scheduler.cpp: the plan that was running is run again for the iterations that
-- its last checkpoint does not have.
use tangram.Base.{
  ℕ, ◌+◌, ◌-◌, ◌*◌, ◌/◌, ◌<◌, some, List, [], ◌∷◌, ◌≡◌, refl, ap, arith, lookup, erase, keys, ◌∙◌,
  set, get, get_elem?, write_at, get_elem?-write_at, lt-length, get-set,
}
use native.Mathlib.Nat.{div-mul-le_self}
use tangram.Plan.Spec.{
  ReadWriteVector, Spec, SpecWrapper, MapJoinSpec, Url, get_read_write, map_join_read_write,
  map_with_join_read_write, get_map_join_spec,
}
use tangram.Scheduler.BlockManager.{NodeInfo}
use tangram.Scheduler.CollectionStatus.{CollectionStatus, get_current_plans}
use tangram.Scheduler.CollectionStatus.Accounts.{IsAccounted}
use tangram.Scheduler.CollectionStatus.Restart.{finish_plan-add_plan}
use tangram.Scheduler.Elem.{
  ControlCommand, Callback, to_all_controllers, recover_magic, is_recover_plan, get_recover_plan_id,
}
use tangram.Scheduler.ControlManager.{PlanControl, no_plan, run_plan}
use tangram.Scheduler.Process.{Scheduler, with_control, start_plan, run}
use tangram.Scheduler.Process.Failures.{
  only, finish_recovery, with_num_iter, remaining_iters, rerun,
}

-- A new number of iterations leaves the kind of plan and its collections.
get_read_write-with_num_iter :
    (n : ℕ) (spec : Spec) → get_read_write (with_num_iter n spec) ≡ get_read_write spec
unfolding get_read_write with_num_iter map_join_read_write map_with_join_read_write
get_read_write-with_num_iter n (Spec.distribute c k) = refl
get_read_write-with_num_iter n (Spec.load c url meta whole) = refl
get_read_write-with_num_iter n (Spec.map_join m) = refl
get_read_write-with_num_iter n (Spec.map_with_join m w) = refl
get_read_write-with_num_iter n (Spec.write c url) = refl
get_read_write-with_num_iter n (Spec.checkpoint c url) = refl
get_read_write-with_num_iter n (Spec.load_checkpoint c url) = refl

-- The control manager starts a map-update plan of at least one iteration.
abbrev started : SpecWrapper → ℕ → PlanControl → PlanControl
started w n p = record p {
  spec = some w;
  is_setup = [];
  is_finished = [];
  versions = 0;
  expected_versions = n;
  callback = some (Callback.plan_done w.id);
}

start_plan-starts :
    (browse : Url → List (ℕ × ℕ)) (slaves : List NodeInfo) (id n : ℕ) (spec : Spec)
    (m : MapJoinSpec) (s : Scheduler)
    → get_map_join_spec spec ≡ some m
    → 0 < n
    → let w : SpecWrapper = record { id = id; spec = with_num_iter n spec } in
      start_plan browse slaves w s
      ≡ some (
        record s { controls = set id (started w n (get no_plan id s.controls)) s.controls },
        to_all_controllers id (ControlCommand.setup w) ∷ [],
      )
unfolding start_plan with_control run_plan with_num_iter get_map_join_spec
start_plan-starts browse slaves id n (Spec.map_join k) m s e pos = ground arith
start_plan-starts browse slaves id n (Spec.map_with_join k c) m s e pos = ground arith
start_plan-starts browse slaves id n (Spec.distribute c k) m s e pos = cc
start_plan-starts browse slaves id n (Spec.load c url meta whole) m s e pos = cc
start_plan-starts browse slaves id n (Spec.write c url) m s e pos = cc
start_plan-starts browse slaves id n (Spec.checkpoint c url) m s e pos = cc
start_plan-starts browse slaves id n (Spec.load_checkpoint c url) m s e pos = cc

-- The plan is finished and run again.
rerun-relaunches :
    (browse : Url → List (ℕ × ℕ)) (slaves : List NodeInfo) (pid : ℕ) (s : Scheduler)
    (w : SpecWrapper) (m : MapJoinSpec)
    → IsAccounted s.status
    → get_elem? s.specs pid ≡ some w
    → get_map_join_spec w.spec ≡ some m
    → lookup pid s.status.cur_plans ≡ some (get_read_write w.spec)
    → pid < recover_magic
    → 0 < m.checkpoint_interval
    → (get no_plan pid s.controls).versions < m.num_iter
    → (s' : Scheduler) × (w' : SpecWrapper) × (rerun browse slaves pid s
        ≡ some (s', to_all_controllers (pid + recover_magic) (ControlCommand.setup w') ∷ []))
      × IsAccounted s'.status
      × (s'.status.cur_plans ≡ set pid (get_read_write w.spec) (erase pid s.status.cur_plans))
      × ((get no_plan (pid + recover_magic) s'.controls).versions ≡ 0)
      × ((get no_plan (pid + recover_magic) s'.controls).expected_versions
            + (get no_plan pid s.controls).versions / m.checkpoint_interval * m.checkpoint_interval
          ≡ m.num_iter)
unfolding rerun run get_recover_plan_id is_recover_plan remaining_iters
rerun-relaunches browse slaves pid s w m a here spec running small interval below =
    let v = (get no_plan pid s.controls).versions in
    let k = m.checkpoint_interval in
    let left = m.num_iter - v / k * k in
    let saved = div-mul-le_self v k in
    let id = pid + recover_magic in
    let w' : SpecWrapper = record { id = id; spec = with_num_iter left w.spec } in
    let (s1, s2, ended, added, a2, again) =
      finish_plan-add_plan pid (get_read_write w.spec) s.status a running in
    let there : get_elem? (write_at s.specs pid w') pid ≡ some w' =
      ground (arith, get_elem?-write_at s.specs pid pid w' (lt-length s.specs pid here)) in
    let t : Scheduler = record s { status = s2; specs = write_at s.specs pid w' } in
    let go = start_plan-starts browse slaves id left w.spec m t spec (omega (arith, saved)) in
    let same = get_read_write-with_num_iter left w.spec in
    let now = get-set no_plan id id (started w' left (get no_plan id s.controls)) s.controls in
    let at : get no_plan id (set id (started w' left (get no_plan id s.controls)) s.controls)
        ≡ started w' left (get no_plan id s.controls) =
      ground (arith, now) in
    (
      record t { controls = set id (started w' left (get no_plan id s.controls)) s.controls },
      w',
      ground (arith, ended, here, spec, there, same, added, go),
      a2,
      again,
      ap (λ p. p.versions) at,
      rw at (omega (arith, saved)),
    )

only-get_current_plans :
    (pid : ℕ) (p : ReadWriteVector) (s : CollectionStatus)
    → s.cur_plans ≡ (pid, p) ∷ []
    → only (get_current_plans s) ≡ some pid
unfolding get_current_plans keys
only-get_current_plans pid p s alone = rw alone refl

-- After a failure of nodes, FinishRecovery relaunches the plan that was running: if exactly one plan runs, the
-- counters of the collections are those of the running plans and no collection is both read and written or has
-- two writers, and the plan is a map-update plan with a checkpoint interval that runs by its program id below
-- 10000 and had not reached its last iteration, then no CHECK fails, the counters are again those of the
-- running plans, the plan is again the only one that runs, from version 0 under its recovery id, and it expects
-- exactly the iterations that its last checkpoint does not have.
pub finish_recovery-relaunches :
    (browse : Url → List (ℕ × ℕ)) (slaves : List NodeInfo) (pid : ℕ) (s : Scheduler)
    (w : SpecWrapper) (m : MapJoinSpec)
    → IsAccounted s.status
    → s.status.cur_plans ≡ (pid, get_read_write w.spec) ∷ []
    → get_elem? s.specs pid ≡ some w
    → get_map_join_spec w.spec ≡ some m
    → pid < recover_magic
    → 0 < m.checkpoint_interval
    → (get no_plan pid s.controls).versions < m.num_iter
    → (s' : Scheduler) × (w' : SpecWrapper) × (finish_recovery browse slaves s
        ≡ some (s', to_all_controllers (pid + recover_magic) (ControlCommand.setup w') ∷ []))
      × IsAccounted s'.status
      × (s'.status.cur_plans ≡ (pid, get_read_write w.spec) ∷ [])
      × ((get no_plan (pid + recover_magic) s'.controls).versions ≡ 0)
      × ((get no_plan (pid + recover_magic) s'.controls).expected_versions
            + (get no_plan pid s.controls).versions / m.checkpoint_interval * m.checkpoint_interval
          ≡ m.num_iter)
unfolding finish_recovery lookup set erase
finish_recovery-relaunches browse slaves pid s w m a alone here spec small interval below =
    let running : lookup pid s.status.cur_plans ≡ some (get_read_write w.spec) =
      rw alone (ground arith) in
    let (s', w', done, a', again, fresh, left) =
      rerun-relaunches browse slaves pid s w m a here spec running small interval below in
    (
      s',
      w',
      rw (only-get_current_plans pid (get_read_write w.spec) s.status alone) done,
      a',
      again ∙ rw alone (ground arith),
      fresh,
      left,
    )
