-- ===== src/Scheduler/DagRunner/Sequential.antt =====
-- The sequential runner of core/scheduler/dag_runner.cpp runs a whole program.
use tangram.Base.{
  has-erase, ℕ, zero, suc, ◌+◌, ◌<◌, true, Option, some, List, [], ◌∷◌, Map, ◌≡◌, refl, subst,
  lookup, has, size, member, IsSorted, length, arith, lookup_below, ◌>>=◌,
}
use tangram.Plan.Dag.{DagNode, empty_dag}
use tangram.Plan.Dag.Visitor.{DagVisitor, new_visitor, get_front, finish, get_num_dag_nodes}
use tangram.Plan.Dag.Degrees.{IsCounted, finish-IsCounted, get_front_iff, IsFree-pending}
use tangram.Plan.Dag.Build.{new_visitor-IsCounted}
use tangram.Plan.Dag.Forward.{IsForward, get_front-nonempty, erase-IsForward}
use tangram.Scheduler.DagRunner.{
  SequentialDagRunner, new_sequential, sequential_runnable, sequential_finish, sequential_remaining,
}
use tangram.Plan.Dag.Program.{Spans, add_plans, WritesOnce, add_plans-IsProgram, empty-IsProgram}

-- A runner whose visitor holds the plans from `lo` up to `hi`.
pub record IsReady (lo hi : ℕ) (v : DagVisitor) : Type 0 where
  pub counted : IsCounted v
  pub forward : IsForward v.nodes
  pub spans : Spans lo hi v.nodes

pub first_node :
    (lo hi : ℕ) (nodes : Map DagNode)
    → lo < hi
    → IsSorted nodes
    → Spans lo hi nodes
    → (n : DagNode) × (rest : Map DagNode) × (nodes ≡ (lo, n) ∷ rest)
unfolding has lookup
first_node lo hi [] h s spans = absurd (ground (arith, spans lo))
first_node lo hi ((k, n) ∷ nodes) h s spans =
    (n, nodes, ground (arith, spans lo, spans k, lookup_below lo (suc k) nodes))

pub finish-IsReady :
    (lo hi : ℕ) (v : DagVisitor)
    → lo < hi
    → IsReady lo hi v
    → (member lo (get_front v) ≡ true)
      × (v' : DagVisitor) × (finish lo v ≡ some v')
      × IsReady (suc lo) hi v'
finish-IsReady lo hi v h r =
    let (n, rest, e) = first_node lo hi v.nodes h r.counted.sorted r.spans in
    let front = get_front-nonempty v lo n rest r.counted r.forward e in
    let (m, found, free) = (get_front_iff lo v r.counted).0 front in
    let (v', done, nodes', counted) =
      finish-IsCounted lo v m r.counted found
        (omega (arith, r.counted.counted lo, IsFree-pending lo v.nodes free r.counted.sorted)) in
    (
      front,
      v',
      done,
      record {
        counted = counted;
        forward = rw nodes' (erase-IsForward lo v.nodes r.forward);
        spans = λ k. rw nodes' (ground (arith, r.spans k, has-erase k lo v.nodes));
      },
    )

-- The scheduler's loop over a sequential runner: run the plan that `GetRunnablePlans` gives, and finish it.
unfoldable pub run_rounds : ℕ → SequentialDagRunner → Option SequentialDagRunner
run_rounds zero r = some r
run_rounds (suc n) r = do
  plans ← sequential_runnable r
  r' ← sequential_finish r.plan_count r
  run_rounds n r'

run_rounds-IsReady :
    (n lo : ℕ) (r : SequentialDagRunner)
    → r.plan_count ≡ lo
    → IsReady lo (lo + n) r.dag_visitor
    → (r' : SequentialDagRunner) × (run_rounds n r ≡ some r')
      × IsReady (lo + n) (lo + n) r'.dag_visitor
unfolding run_rounds sequential_runnable sequential_finish
run_rounds-IsReady zero lo r at ready =
    (r, refl, subst (λ k. IsReady k (lo + 0) r.dag_visitor) (omega arith) ready)
run_rounds-IsReady (suc n) lo r at ready =
    let (front, v', done, ready') =
      finish-IsReady lo (lo + suc n) r.dag_visitor (omega arith) ready in
    let r' : SequentialDagRunner = record { dag_visitor = v'; plan_count = r.plan_count + 1 } in
    let same : suc lo + n ≡ lo + suc n = omega arith in
    let (r'', e, end) = run_rounds-IsReady n (suc lo) r' (omega arith) (rw same ready') in
    (r'', ground (arith, front, done, e), rw same at end)

pub IsReady-end : (hi : ℕ) (v : DagVisitor) → IsReady hi hi v → v.nodes ≡ []
unfolding has lookup
IsReady-end hi v r = go v.nodes refl
  where
    go : (nodes : Map DagNode) → v.nodes ≡ nodes → v.nodes ≡ []
    go [] e = e
    go ((k, n) ∷ nodes) e = absurd (let h = r.spans k in ground arith)

-- A program's graph is ready from plan 0 on.
pub new_sequential-IsReady :
    (plans : List (List ℕ × List ℕ))
    → WritesOnce plans
    → IsReady 0 (length plans) (new_sequential (add_plans 0 plans empty_dag)).dag_visitor
unfolding new_sequential new_visitor
new_sequential-IsReady plans u =
    let p = add_plans-IsProgram 0 plans empty_dag u empty-IsProgram in
    record {
      counted = new_visitor-IsCounted (add_plans 0 plans empty_dag) p.balanced;
      forward = p.forward;
      spans = λ k. ground (arith, p.spans k);
    }

-- The sequential runner runs every program of plans that write no collection twice: each round finds the next
-- plan in the front, no CHECK fails, and after as many rounds as there are plans none remains.
pub run_rounds-total :
    (plans : List (List ℕ × List ℕ))
    → WritesOnce plans
    → (r : SequentialDagRunner) × (run_rounds
          (length plans)
          (new_sequential (add_plans 0 plans empty_dag))
        ≡ some r)
      × (sequential_remaining r ≡ 0)
unfolding new_sequential sequential_remaining get_num_dag_nodes size
run_rounds-total plans u =
    let n = length plans in
    let d = new_sequential (add_plans 0 plans empty_dag) in
    let same : n ≡ 0 + n = omega arith in
    let ready = subst (λ k. IsReady 0 k d.dag_visitor) same (new_sequential-IsReady plans u) in
    let (r, e, end) = run_rounds-IsReady n 0 d refl ready in
    (r, e, ground (arith, IsReady-end (0 + n) r.dag_visitor end))
