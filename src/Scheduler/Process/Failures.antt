-- ===== src/Scheduler/Process/Failures.antt =====
-- Recovery, FinishRecovery and the closures of core/scheduler/scheduler.cpp. A change of `num_iter` in the program's specification also
-- reaches the control manager's old copy, which nothing reads then.
use tangram.Base.{
  ℕ, ◌-◌, ◌*◌, ◌/◌, Bool, true, false, not, Option, none, some, List, [], ◌∷◌, lookup, get,
  get_elem?, write_at, member, if◌then◌else◌, ◌==◌, check, ◌>>=◌, ◌>>◌, map,
}
use tangram.Plan.Spec.{Spec, MapJoinSpec, Url, get_map_join_spec}
use tangram.Scheduler.BlockManager.{NodeInfo}
use tangram.Scheduler.CollectionStatus.{
  finish_plan, get_current_plans, get_writes, get_reads_and_cp, get_writes_and_cp,
}
use tangram.Scheduler.Elem.{
  SchedulerElem, Callback, ControlCommand, Effect, Move, to_controller, get_recover_plan_id,
}
use tangram.Scheduler.CollectionManager.{update}
use tangram.Scheduler.CheckpointManager.{finish_load_last}
use tangram.Scheduler.RecoverManager.{Step, recover, recover_done_for_a_collection}
use tangram.Scheduler.ControlManager.{no_plan, abort_plan}
use tangram.Scheduler.ControlManager.Migration.{reassign_map}
use tangram.Scheduler.Process.{Scheduler, Outcome, with_control, with_recovery, run}

abbrev pub set_num_iter : ℕ → MapJoinSpec → MapJoinSpec
set_num_iter n m = record m { num_iter = n }

unfoldable pub with_num_iter : ℕ → Spec → Spec
with_num_iter n (Spec.map_join m) = Spec.map_join (set_num_iter n m)
with_num_iter n (Spec.map_with_join m w) = Spec.map_with_join (set_num_iter n m) w
with_num_iter n spec = spec

-- The iterations that are left after the last checkpoint.
unfoldable pub remaining_iters : MapJoinSpec → ℕ → ℕ
remaining_iters m cur_version =
    m.num_iter - cur_version / m.checkpoint_interval * m.checkpoint_interval

-- What FinishRecovery does with the only running plan, which `finish_recovery` looks up.
unfoldable pub rerun :
    (browse : Url → List (ℕ × ℕ)) → (slaves : List NodeInfo) → ℕ → Scheduler → Outcome
unfolding with_num_iter remaining_iters run
rerun browse slaves pid s = do
  status ← finish_plan pid s.status
  w ← get_elem? s.specs pid
  m ← get_map_join_spec w.spec
  check (not (m.checkpoint_interval == 0))
  let left = remaining_iters m (get no_plan pid s.controls).versions
  id ← get_recover_plan_id pid
  let specs = write_at s.specs pid (record { id = id; spec = with_num_iter left w.spec })
  run browse slaves pid (record s { status = status; specs = specs })

abbrev pub only : List ℕ → Option ℕ
only (x ∷ []) = some x
only _ = none

unfoldable pub finish_recovery :
    (browse : Url → List (ℕ × ℕ)) → (slaves : List NodeInfo) → Scheduler → Outcome
unfolding rerun
finish_recovery browse slaves s = do
  pid ← only (get_current_plans s.status)
  rerun browse slaves pid s

abbrev any_dead : List ℕ → List ℕ → Bool
any_dead dead [] = false
any_dead dead (n ∷ ns) = if member n dead then true else any_dead dead ns

unfoldable pub lost_write_collection : List ℕ → List ℕ → SchedulerElem → Option Bool
lost_write_collection dead [] elem = some false
lost_write_collection dead (w ∷ ws) elem = do
  nodes ← lookup w elem.collection_map
  let rest = lost_write_collection dead ws elem
  if any_dead dead nodes then some true else rest

-- `elem_->nodes.erase(node)` for each dead node.
unfoldable pub live_nodes : List ℕ → List ℕ → List ℕ
live_nodes dead [] = []
live_nodes dead (n ∷ ns) = let rest = live_nodes dead ns in if member n dead then rest else n ∷ rest

-- Scheduler::Recovery.
unfoldable pub recovery : List ℕ → Scheduler → Outcome
unfolding live_nodes lost_write_collection with_control with_recovery
recovery dead s = do
  let s' = record s { elem = record (s.elem) { nodes = live_nodes dead s.elem.nodes } }
  plan_id ← only (get_current_plans s.status)
  w ← get_elem? s.specs plan_id
  m ← get_map_join_spec w.spec
  lost ← lost_write_collection dead (get_writes s.status) s'.elem
  let aborted = with_control plan_id (abort_plan plan_id (Callback.plan_aborted dead)) s'
  let reassigned = (do
    reads ← get_reads_and_cp s.status
    with_recovery (recover dead [] reads (Callback.reads_recovered plan_id reads)) s')
  if lost then aborted else reassigned

abbrev load_with : ℕ → Move → Effect
load_with plan_id m = to_controller m.1 plan_id (ControlCommand.finish_load_with m)

-- What the closures do when they are called.
unfoldable pub run_callback :
    (browse : Url → List (ℕ × ℕ)) → (slaves : List NodeInfo) → Callback → Scheduler → Outcome
unfolding with_recovery with_control finish_recovery
run_callback browse slaves (Callback.plan_done id) s = some (s, Effect.finish_plan id ∷ [])
run_callback browse slaves (Callback.checkpoint_loaded cid) s =
    let (m, sent) = finish_load_last cid s.checkpoints in some (record s { checkpoints = m }, sent)
run_callback browse slaves (Callback.recover_loaded cid) s = do
  r ← recover_done_for_a_collection cid Step.loaded s.recovery
  some (record s { recovery = r.0 }, r.1)
run_callback browse slaves (Callback.recover_updated cid) s = do
  r ← recover_done_for_a_collection cid Step.updated s.recovery
  some (record s { recovery = r.0 }, r.1)
run_callback browse slaves (Callback.plan_aborted dead) s = do
  reads ← get_reads_and_cp s.status
  writes ← get_writes_and_cp s.status
  with_recovery (recover dead writes reads Callback.all_recovered) s
run_callback browse slaves (Callback.reads_recovered plan_id ((cid, url) ∷ [])) s =
    with_control plan_id (reassign_map plan_id cid) s
run_callback browse slaves (Callback.reads_recovered plan_id _) s = none
run_callback browse slaves Callback.all_recovered s = finish_recovery browse slaves s
run_callback browse slaves (Callback.with_loaded plan_id moves with_id) s = do
  r ← update s.elem with_id (Callback.with_updated plan_id moves) s.collections
  some (record s { collections = r.0 }, r.1)
run_callback browse slaves (Callback.with_updated plan_id moves) s =
    some (s, map (load_with plan_id) moves)
