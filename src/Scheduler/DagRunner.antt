-- ===== src/Scheduler/DagRunner.antt =====
-- core/scheduler/dag_runner.hpp and dag_runner.cpp. A runner's state is its visitor and its own
-- fields; `num_plans_`, which nothing reads, is left out, and so is the `plan_count_` of the wide runner.
pub mod Sequential
pub mod Programs
pub mod Wide
pub mod Hazard
use tangram.Base.{
  ℕ, zero, suc, ◌+◌, Bool, Option, none, some, List, [], ◌∷◌, member, insert, remove, if◌then◌else◌,
  ◌==◌, check, ◌>>=◌, ◌>>◌,
}
use tangram.Plan.Dag.{Dag}
use tangram.Plan.Dag.Visitor.{DagVisitor, new_visitor, get_front, finish, get_num_dag_nodes}

pub record SequentialDagRunner : Type 0 where
  pub dag_visitor : DagVisitor
  pub plan_count : ℕ

unfoldable pub new_sequential : Dag → SequentialDagRunner
new_sequential d = record { dag_visitor = new_visitor d; plan_count = 0 }

unfoldable pub sequential_runnable : SequentialDagRunner → Option (List ℕ)
sequential_runnable r = do
  check (member r.plan_count (get_front r.dag_visitor))
  some (r.plan_count ∷ [])

unfoldable pub sequential_finish : ℕ → SequentialDagRunner → Option SequentialDagRunner
sequential_finish plan_id r = do
  check (plan_id == r.plan_count)
  visitor ← finish plan_id r.dag_visitor
  some (record { dag_visitor = visitor; plan_count = r.plan_count + 1 })

unfoldable pub sequential_remaining : SequentialDagRunner → ℕ
sequential_remaining r = get_num_dag_nodes r.dag_visitor

pub record WideDagRunner : Type 0 where
  pub dag_visitor : DagVisitor
  pub running : List ℕ

unfoldable pub new_wide : Dag → WideDagRunner
new_wide d = record { dag_visitor = new_visitor d; running = [] }

-- The loop over the front: the plans that are not running yet, and `running_`.
unfoldable pub start_plans : List ℕ → List ℕ → List ℕ × List ℕ
start_plans [] running = ([], running)
start_plans (p ∷ ps) running =
    let rest = start_plans ps running in
    let (ret, running') = start_plans ps (insert p running) in
    if member p running then rest else (p ∷ ret, running')

unfoldable pub wide_runnable : WideDagRunner → List ℕ × WideDagRunner
unfolding start_plans
wide_runnable r =
    let (ret, running) = start_plans (get_front r.dag_visitor) r.running in
    (ret, record r { running = running })

unfoldable pub wide_finish : ℕ → WideDagRunner → Option WideDagRunner
wide_finish plan_id r = do
  check (member plan_id r.running)
  visitor ← finish plan_id r.dag_visitor
  some (record { dag_visitor = visitor; running = remove plan_id r.running })

unfoldable pub wide_remaining : WideDagRunner → ℕ
wide_remaining r = get_num_dag_nodes r.dag_visitor
