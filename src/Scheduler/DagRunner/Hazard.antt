-- ===== src/Scheduler/DagRunner/Hazard.antt =====
-- A reader of a collection and a later writer of it: the graph of core/plan/dag.cpp against the accounts of
-- core/scheduler/collection_status.cpp.
use tangram.Base.{
  ℕ, ◌+◌, ◌<◌, ◌≤◌, true, false, none, some, List, [], ◌∷◌, ◌++◌, ◌≡◌, refl, inl, inr, arith, ◌∙◌,
  lookup, set, get, has, member, count, length, sum, Option-cases,
}
use tangram.Plan.Dag.{empty_dag, add_dag_node, node_at, get_or_create_col, get_last_write, last}
use tangram.Plan.Dag.Visitor.{new_visitor}
use tangram.Plan.Dag.Build.{new_visitor-IsCounted}
use tangram.Plan.Dag.Forward.{Distinct, count_absent}
use tangram.Plan.Dag.Program.{WritesOnce, add_plans, add_plans-IsProgram, empty-IsProgram}
use tangram.Plan.Dag.Fresh.{
  Unwritten, ins-Unwritten, ins-add_plans, ins-add_dag_node_other, add_dag_node-Unwritten,
  get_front-no_ins,
}
use tangram.Scheduler.DagRunner.{WideDagRunner, new_wide, wide_runnable}
use tangram.Scheduler.DagRunner.Wide.{IsRunning, wide_runnable_lem}
use tangram.Scheduler.CollectionStatus.{CollectionStatus, no_status, add_plan}
use tangram.Scheduler.CollectionStatus.Accounts.{
  readers, no_status-IsAccounted, add_plan-IsAccounted,
}
use tangram.Scheduler.CollectionStatus.Accepts.{add_plan_iff}

abbrev pub Accesses : Type 0
Accesses = List ℕ × List ℕ

abbrev start : List Accesses → WideDagRunner
start plans = new_wide (add_plans 0 plans empty_dag)

start-IsRunning : (plans : List Accesses) → WritesOnce plans → IsRunning (start plans)
unfolding new_wide new_visitor member
start-IsRunning plans u =
    let p = add_plans-IsProgram 0 plans empty_dag u empty-IsProgram in
    record {
      counted = new_visitor-IsCounted (add_plans 0 plans empty_dag) p.balanced;
      forward = p.forward;
      in_front = λ k h. cc;
    }

-- A plan without an edge to it is handed out at the start.
starts :
    (k : ℕ) (plans : List Accesses)
    → WritesOnce plans
    → k < length plans
    → (node_at k (add_plans 0 plans empty_dag).nodes).ins ≡ []
    → member k (wide_runnable (start plans)).0 ≡ true
unfolding new_wide member
starts k plans u below e =
    let p = add_plans-IsProgram 0 plans empty_dag u empty-IsProgram in
    ground (
      arith,
      wide_runnable_lem (start plans) k (start-IsRunning plans u),
      get_front-no_ins k (0 + length plans) (add_plans 0 plans empty_dag) p (omega (arith, below))
          e,
    )

empty-Unwritten : (cs : List ℕ) → Unwritten cs empty_dag.cols
unfolding get_or_create_col get_last_write last lookup
empty-Unwritten cs c m = refl

no_ins_0 :
    (p q : Accesses) (rest : List Accesses)
    → Distinct p.1
    → (node_at 0 (add_plans 0 (p ∷ q ∷ rest) empty_dag).nodes).ins ≡ []
unfolding add_plans
no_ins_0 p q rest u =
    let d = add_dag_node 0 p.0 p.1 empty_dag in
    ins-add_plans 0 1 (q ∷ rest) d (omega arith)
    ∙ ins-Unwritten 0 p.0 p.1 empty_dag u (unfold node_at get lookup in refl)
        (empty-Unwritten (p.0 ++ p.1))

-- No collection of the first list is in the second.
abbrev pub Apart : List ℕ → List ℕ → Type 0
Apart cs ws = (c : ℕ) → member c cs ≡ true → member c ws ≡ false

no_ins_1 :
    (p q : Accesses) (rest : List Accesses)
    → Distinct q.1
    → Apart (q.0 ++ q.1) p.1
    → (node_at 1 (add_plans 0 (p ∷ q ∷ rest) empty_dag).nodes).ins ≡ []
unfolding add_plans
no_ins_1 p q rest u apart =
    let d = add_dag_node 0 p.0 p.1 empty_dag in
    ins-add_plans 1 2 rest (add_dag_node 1 q.0 q.1 d) (omega arith)
    ∙ ins-Unwritten 1 q.0 q.1 d u fresh (
        add_dag_node-Unwritten 0 p.0 p.1 (q.0 ++ q.1) empty_dag (empty-Unwritten (q.0 ++ q.1))
          apart)
  where
    fresh : (node_at 1 (add_dag_node 0 p.0 p.1 empty_dag).nodes).ins ≡ []
    fresh =
        ins-add_dag_node_other 1 0 p.0 p.1 empty_dag (λ e. omega (arith, e))
        ∙ unfold node_at get lookup in refl

count-Distinct : (c : ℕ) (ws : List ℕ) → Distinct ws → count c ws ≤ 1
unfolding count member
count-Distinct c [] u = omega arith
count-Distinct c (w ∷ ws) u = ground (arith, u.0, count-Distinct c ws u.1, count_absent c ws)

count-member : (c : ℕ) (cs : List ℕ) → member c cs ≡ true → 0 < count c cs
unfolding count member
count-member c [] m = cc
count-member c (d ∷ cs) m = ground (arith, count-member c cs)

member-count : (c : ℕ) (cs : List ℕ) → 0 < count c cs → member c cs ≡ true
unfolding count member
member-count c [] m = absurd (omega arith)
member-count c (d ∷ cs) m = ground (arith, member-count c cs)

accepts_0 :
    (p : Accesses)
    → Distinct p.1
    → Apart p.0 p.1
    → (s : CollectionStatus) × (add_plan 0 p no_status ≡ some s)
accepts_0 p u apart = (add_plan_iff 0 p no_status no_status-IsAccounted).1 (record {
  new = unfold has lookup in refl;
  once = λ c h. omega (arith, h, count-Distinct c p.1 u);
  unwritten = λ c h. unfold sum in refl;
  unread = λ c h. unfold sum in ground (arith, count_absent c p.0, member-count c p.1 h, apart c);
})

refuses_1 :
    (p q : Accesses) (c : ℕ) (s : CollectionStatus)
    → member c p.0 ≡ true
    → member c q.1 ≡ true
    → add_plan 0 p no_status ≡ some s
    → add_plan 1 q s ≡ none
refuses_1 p q c s reads writes e =
    let (a, now) =
      add_plan-IsAccounted 0 p no_status s no_status-IsAccounted (λ j h. unfold sum in refl) e in
    let counted : readers c s.cur_plans ≡ count c p.0 = rw now (unfold sum set in omega arith) in
    elim (Option-cases (add_plan 1 q s)) [
      | inl refused ↦ refused
      | inr (s', accepted) ↦
          let w = (add_plan_iff 1 q s a).0 (s', accepted) in
          absurd (
            omega
              (arith, w.unread c (count-member c q.1 writes), counted, count-member c p.0 reads))
    ]

-- For a program of two plans and any plans after them, none of which writes a collection twice, where plan 0
-- reads a collection that plan 1 writes, plan 0 reads nothing that it writes and plan 1 neither reads nor
-- writes what plan 0 writes: the wide runner hands out both plans at the start, AddPlan accepts plan 0 when
-- nothing runs, and AddPlan of plan 1 after it stops the process.
pub wide_runnable-hazard :
    (c : ℕ) (p q : Accesses) (rest : List Accesses)
    → WritesOnce (p ∷ q ∷ rest)
    → Apart p.0 p.1
    → Apart (q.0 ++ q.1) p.1
    → member c p.0 ≡ true
    → member c q.1 ≡ true
    → let ret = (wide_runnable (new_wide (add_plans 0 (p ∷ q ∷ rest) empty_dag))).0 in
      (member 0 ret ≡ true)
      × (member 1 ret ≡ true)
      × ((s : CollectionStatus) × (add_plan 0 p no_status ≡ some s) × (add_plan 1 q s ≡ none))
wide_runnable-hazard c p q rest u self apart reads writes =
    let plans = p ∷ q ∷ rest in
    let (s, accepted) = accepts_0 p u.0 self in
    (
      starts 0 plans u (omega arith) (no_ins_0 p q rest u.0),
      starts 1 plans u (omega arith) (no_ins_1 p q rest u.1.0 apart),
      (s, accepted, refuses_1 p q c s reads writes accepted),
    )
