-- ===== src/Scheduler/CollectionStatus/Restart.antt =====
-- A plan of core/scheduler/collection_status.cpp that ends and starts again, as Scheduler::FinishRecovery does.
use tangram.Base.{ℕ, some, ◌≡◌, lookup, arith, count, set, erase, ap, ◌∙◌, has-erase, sum-erase_old}
use tangram.Plan.Spec.{ReadWriteVector}
use tangram.Scheduler.CollectionStatus.{CollectionStatus, add_plan, finish_plan}
use tangram.Scheduler.CollectionStatus.Accounts.{
  IsAccounted, finish_plan-IsAccounted, add_plan-IsAccounted,
}
use tangram.Scheduler.CollectionStatus.Accepts.{IsWelcome, add_plan_iff}

-- If the counters are those of the running plans, then a running plan can be finished and added again at once:
-- no CHECK fails, the plan is recorded again, and the counters are again those of the running plans.
pub finish_plan-add_plan :
    (id : ℕ) (p : ReadWriteVector) (s : CollectionStatus)
    → IsAccounted s
    → lookup id s.cur_plans ≡ some p
    → (s1 s2 : CollectionStatus) × (finish_plan id s ≡ some s1)
      × (add_plan id p s1 ≡ some s2)
      × IsAccounted s2
      × (s2.cur_plans ≡ set id p (erase id s.cur_plans))
finish_plan-add_plan id p s a found =
    let (s1, done, left, cps, a1) = finish_plan-IsAccounted id p s a found in
    let r = λ (c : ℕ).
      sum-erase_old (λ _ (q : ReadWriteVector). count c q.0) 0 id p s.cur_plans a.sorted found in
    let w = λ (c : ℕ).
      sum-erase_old (λ _ (q : ReadWriteVector). count c q.1) 0 id p s.cur_plans a.sorted found in
    let welcome : IsWelcome id p s1 = record {
      new = rw left (ground (arith, has-erase id id s.cur_plans));
      once = λ c h. ground (arith, a.alone c, w c);
      unwritten = λ c h. rw left (ground (arith, a.alone c, w c));
      unread = λ c h. rw left (ground (arith, a.alone c, w c, r c));
    } in
    let (s2, added) = (add_plan_iff id p s1 a1).1 welcome in
    let (a2, now) =
      add_plan-IsAccounted id p s1 s2 a1 (λ c h. rw left (ground (arith, a.alone c, r c, w c)))
        added in
    (s1, s2, done, added, a2, now ∙ ap (set id p) left)
