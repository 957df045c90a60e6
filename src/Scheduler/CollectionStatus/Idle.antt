-- ===== src/Scheduler/CollectionStatus/Idle.antt =====
-- What core/plan/spec_wrapper.hpp gives to `AddPlan` of core/scheduler/collection_status.cpp.
use tangram.Base.{ℕ, ◌<◌, some, [], ◌∷◌, ◌≡◌, refl, set, has, lookup, arith, count, sum}
use tangram.Plan.Spec.{Spec, get_read_write, map_join_read_write, map_with_join_read_write}
use tangram.Scheduler.CollectionStatus.{CollectionStatus, add_plan}
use tangram.Scheduler.CollectionStatus.Accounts.{
  IsAccounted, readers, writers, add_plan-IsAccounted,
}
use tangram.Scheduler.CollectionStatus.Accepts.{IsWelcome, add_plan_iff}

-- A collection that a plan writes is written once, and the plan does not read it.
get_read_write-apart :
    (s : Spec) (c : ℕ)
    → 0 < count c (get_read_write s).1
    → (count c (get_read_write s).1 ≡ 1) × (count c (get_read_write s).0 ≡ 0)
unfolding get_read_write map_join_read_write map_with_join_read_write count
get_read_write-apart (Spec.distribute k n) c h = ground arith
get_read_write-apart (Spec.load k url meta whole) c h = ground arith
get_read_write-apart (Spec.map_join m) c h = ground arith
get_read_write-apart (Spec.map_with_join m w) c h = ground arith
get_read_write-apart (Spec.write k url) c h = ground arith
get_read_write-apart (Spec.checkpoint k url) c h = ground arith
get_read_write-apart (Spec.load_checkpoint k url) c h = ground arith

-- If the counters are those of the running plans and no plan is running, then AddPlan accepts every
-- specification with its GetReadWrite, and the plan is then the only one that runs, with exact counters.
pub add_plan-idle :
    (id : ℕ) (w : Spec) (s : CollectionStatus)
    → IsAccounted s
    → s.cur_plans ≡ []
    → (s' : CollectionStatus) × (add_plan id (get_read_write w) s ≡ some s')
      × IsAccounted s'
      × (s'.cur_plans ≡ (id, get_read_write w) ∷ [])
unfolding sum set has lookup
add_plan-idle id w s a idle =
    let apart = get_read_write-apart w in
    let no_writer : (c : ℕ) → writers c s.cur_plans ≡ 0 = λ c. rw idle refl in
    let no_reader : (c : ℕ) → readers c s.cur_plans ≡ 0 = λ c. rw idle refl in
    let welcome : IsWelcome id (get_read_write w) s = record {
      new = rw idle refl;
      once = λ c h. (apart c h).0;
      unwritten = λ c h. no_writer c;
      unread = λ c h. omega (arith, no_reader c, (apart c h).1);
    } in
    let (s', added) = (add_plan_iff id (get_read_write w) s a).1 welcome in
    let (a', now) = add_plan-IsAccounted id (get_read_write w) s s' a (λ c h. no_writer c) added in
    (s', added, a', rw (now, idle) refl)
