-- ===== src/Scheduler/DagRunner/Wide.antt =====
-- The wide runner of core/scheduler/dag_runner.cpp: what it hands out, and that any of it can be finished.
use tangram.Base.{
  ℕ, true, false, not, some, List, [], ◌∷◌, Map, ◌≡◌, refl, sym, subst, erase, if◌then◌else◌, ◌==◌,
  arith, member, insert, remove, lookup-erase, member-insert, member-remove, ◌||◌, ◌&&◌,
}
use tangram.Plan.Dag.{DagNode}
use tangram.Plan.Dag.Visitor.{get_front}
use tangram.Plan.Dag.Degrees.{IsCounted, IsFree, IsFree-pending, get_front_iff, finish-IsCounted}
use tangram.Plan.Dag.Forward.{IsForward, get_front-nonempty, erase-IsForward}
use tangram.Scheduler.DagRunner.{WideDagRunner, start_plans, wide_runnable, wide_finish}

-- Every running plan is in the front.
pub record IsRunning (r : WideDagRunner) : Type 0 where
  pub counted : IsCounted r.dag_visitor
  pub forward : IsForward r.dag_visitor.nodes
  pub in_front : (p : ℕ) → member p r.running ≡ true → member p (get_front r.dag_visitor) ≡ true

start_plans-member :
    (p : ℕ) (front running : List ℕ)
    → let s = start_plans front running in
      (member p s.0 ≡ (member p front && not (member p running)))
      × (member p s.1 ≡ (member p front || member p running))
unfolding start_plans member
start_plans-member p [] running = (refl, refl)
start_plans-member p (q ∷ front) running = ground (
  arith,
  start_plans-member p front running,
  start_plans-member p front (insert q running),
  member-insert p q running,
)

-- For a wide runner whose running plans are in the front of an exactly counted graph: GetRunnablePlans hands
-- out exactly the plans of the front that are not running, and from then on exactly the plans of the front are
-- running.
pub wide_runnable_lem :
    (r : WideDagRunner) (p : ℕ)
    → IsRunning r
    → let (ret, r') = wide_runnable r in
      (member p ret ≡ (member p (get_front r.dag_visitor) && not (member p r.running)))
      × (member p r'.running ≡ member p (get_front r.dag_visitor))
      × IsRunning r'
unfolding wide_runnable
wide_runnable_lem r p i =
    let s = λ (q : ℕ). start_plans-member q (get_front r.dag_visitor) r.running in
    (
      (s p).0,
      ground (arith, s p, i.in_front p),
      record {
        counted = i.counted;
        forward = i.forward;
        in_front = λ q h. ground (arith, s q, i.in_front q);
      },
    )

IsFree-erase : (k id : ℕ) (nodes : Map DagNode) → IsFree k nodes → IsFree k (erase id nodes)
IsFree-erase k id nodes f m n e = f m n (ground (arith, lookup-erase m id nodes))

-- For a wide runner whose running plans are in the front of an exactly counted graph: whichever running plan
-- finishes first, Finish fails no CHECK, removes the plan from the graph and from the running plans and nothing
-- else, and the others stay in the front.
pub wide_finish_lem :
    (r : WideDagRunner) (p : ℕ)
    → IsRunning r
    → member p r.running ≡ true
    → (r' : WideDagRunner) × (wide_finish p r ≡ some r')
      × (r'.dag_visitor.nodes ≡ erase p r.dag_visitor.nodes)
      × ((q : ℕ) → member q r'.running ≡ (if p == q then false else member q r.running))
      × IsRunning r'
unfolding wide_finish
wide_finish_lem r p i h =
    let v = r.dag_visitor in
    let (n, found, free) = (get_front_iff p v i.counted).0 (i.in_front p h) in
    let (v', done, nodes', counted) =
      finish-IsCounted p v n i.counted found
        (omega (arith, i.counted.counted p, IsFree-pending p v.nodes free i.counted.sorted)) in
    let stays = λ (q : ℕ) (hq : member q (remove p r.running) ≡ true).
      let (m, there, free_q) =
        (get_front_iff q v i.counted).0
          (i.in_front q (ground (arith, member-remove q p r.running))) in
      (get_front_iff q v' counted).1 (
        m,
        rw nodes' (ground (arith, lookup-erase q p v.nodes, member-remove q p r.running)),
        subst (IsFree q) (sym nodes') (IsFree-erase q p v.nodes free_q),
      ) in
    (
      record { dag_visitor = v'; running = remove p r.running },
      ground (arith, done),
      nodes',
      λ q. member-remove q p r.running,
      record {
        counted = counted;
        forward = rw nodes' (erase-IsForward p v.nodes i.forward);
        in_front = stays;
      },
    )

-- For a wide runner whose running plans are in the front of an exactly counted graph with edges to later plans
-- only: while a plan is left, the first that is left is running after GetRunnablePlans.
pub wide_runnable-progress :
    (r : WideDagRunner) (k : ℕ) (n : DagNode) (rest : Map DagNode)
    → IsRunning r
    → r.dag_visitor.nodes ≡ (k, n) ∷ rest
    → member k (wide_runnable r).1.running ≡ true
wide_runnable-progress r k n rest i e = ground (
  arith,
  wide_runnable_lem r k i,
  get_front-nonempty r.dag_visitor k n rest i.counted i.forward e,
)
