-- ===== src/Plan/Dag/Forward.antt =====
-- Plans are added by ascending id in core/plan/runner.cpp: every edge of the graph leads to a later plan, so
-- a graph that is not empty has a plan that can run.
use tangram.Base.{
  ℕ, suc, ◌≤◌, ◌<◌, true, false, Option, none, some, List, [], ◌∷◌, Map, ◌≡◌, refl, sym, ◌⊎◌, inl,
  inr, ◌||◌, lookup, set, erase, count, member, IsSorted, if◌then◌else◌, ◌==◌, arith, get-erase,
  get-some, Option-cases, lookup-set, member-insert, member-append, lookup_below, Bool-cases, subst,
}
use tangram.Plan.Dag.{
  DagNode, Col, node_at, new_node, last, get_or_create_col, get_last_write, append_read,
  append_write, note, add_reads, add_writes,
}
use tangram.Plan.Dag.Visitor.{DagVisitor, get_front}
use tangram.Plan.Dag.Degrees.{IsCounted, get_front_iff, IsFree}

abbrev pub IsForward : Map DagNode → Type 0
IsForward nodes = (k c : ℕ) → member c (node_at k nodes).out ≡ true → k < c

-- `member` and `count` agree on absence.
pub count_absent : (a : ℕ) (xs : List ℕ) → member a xs ≡ false → count a xs ≡ 0
unfolding member count
count_absent a [] h = refl
count_absent a (x ∷ xs) h = ground (arith, count_absent a xs)

lt_or_le : (a b : ℕ) → (a < b) ⊎ (b ≤ a)
lt_or_le a b = ground arith

first-IsFree :
    (k : ℕ) (n : DagNode) (nodes : Map DagNode)
    → IsSorted ((k, n) ∷ nodes)
    → IsForward ((k, n) ∷ nodes)
    → IsFree k ((k, n) ∷ nodes)
unfolding node_at
first-IsFree k n nodes s f m n' e = elim (lt_or_le m k) [
  | inl below ↦ absurd (unfold lookup in ground (arith, lookup_below m (suc k) nodes))
  | inr above ↦ elim (Bool-cases (member k n'.out)) [
    | inl there ↦
        absurd
          (omega (arith, f m k (rw (get-some (new_node m) m ((k, n) ∷ nodes) e, node_at) there)))
    | inr absent ↦ count_absent k n'.out absent
  ]
]

-- While a plan is left, some plan can run: the first of those left.
pub get_front-nonempty :
    (v : DagVisitor) (k : ℕ) (n : DagNode) (rest : Map DagNode)
    → IsCounted v
    → IsForward v.nodes
    → v.nodes ≡ (k, n) ∷ rest
    → member k (get_front v) ≡ true
get_front-nonempty v k n rest c f e = (get_front_iff k v c).1 (
  n,
  rw e (unfold lookup in ground arith),
  subst (IsFree k) (sym e)
      (first-IsFree k n rest (subst IsSorted e c.sorted) (subst IsForward e f)),
)

node_at-erase :
    (j k : ℕ) (nodes : Map DagNode)
    → node_at j (erase k nodes) ≡ (if k == j then new_node j else node_at j nodes)
unfolding node_at
node_at-erase j k nodes = get-erase (new_node j) j k nodes

-- Finishing a plan leaves the edges of the others alone.
pub erase-IsForward : (id : ℕ) (nodes : Map DagNode) → IsForward nodes → IsForward (erase id nodes)
unfolding member
erase-IsForward id nodes f k c h = ground (arith, f k c, node_at-erase k id nodes)

-- Every plan that writes a collection comes before plan `id`.
abbrev pub WrittenBelow : ℕ → Map Col → Type 0
WrittenBelow id cols = (c p : ℕ) → member p (get_or_create_col c cols).write_queue ≡ true → p < id

abbrev pub AllBelow : ℕ → List ℕ → Type 0
AllBelow id ps = (p : ℕ) → member p ps ≡ true → p < id

abbrev pub Distinct : List ℕ → Type 0
Distinct [] = Unit
Distinct (x ∷ xs) = (member x xs ≡ false) × Distinct xs

last-member : (xs : List ℕ) (a : ℕ) → last xs ≡ some a → member a xs ≡ true
unfolding last member
last-member [] a h = cc
last-member (x ∷ xs) a h = elim (Option-cases (last xs)) [
  | inl e ↦ ground arith
  | inr (b, e) ↦ ground (arith, last-member xs b e)
]

pub col_at-set :
    (j k : ℕ) (c : Col) (cols : Map Col)
    → get_or_create_col j (set k c cols) ≡ (if k == j then c else get_or_create_col j cols)
unfolding get_or_create_col
col_at-set j k c cols = ground (arith, lookup-set j k c cols)

pub member-note :
    (p : ℕ) (o : Option ℕ) (deps : List ℕ)
    → member p (note o deps) ≡ (elim o [ none ↦ false | some q ↦ q == p ] || member p deps)
member-note p none deps = refl
member-note p (some q) deps = member-insert p q deps

pub note-AllBelow :
    (id : ℕ) (col : Col) (deps : List ℕ)
    → ((p : ℕ) → member p col.write_queue ≡ true → p < id)
    → AllBelow id deps
    → AllBelow id (note (get_last_write col) deps)
unfolding get_last_write
note-AllBelow id col deps w b p h = elim (Option-cases (last col.write_queue)) [
  | inl e ↦ ground (arith, member-note p (last col.write_queue) deps, b p)
  | inr (q, e) ↦
      ground (
        arith,
        member-note p (last col.write_queue) deps,
        b p,
        w q,
        last-member col.write_queue q e,
      )
]

pub add_reads-WrittenBelow :
    (id : ℕ) (cs deps : List ℕ) (cols : Map Col)
    → AllBelow id deps
    → WrittenBelow id cols
    → let s = add_reads id cs (deps, cols) in AllBelow id s.0 × WrittenBelow id s.1
unfolding add_reads append_read
add_reads-WrittenBelow id [] deps cols b w = (b, w)
add_reads-WrittenBelow id (c ∷ cs) deps cols b w =
    let col = get_or_create_col c cols in
    add_reads-WrittenBelow id cs _ _ (note-AllBelow id col deps (w c) b)
      (λ j p h. ground (arith, w j p, w c p, col_at-set j c (append_read col id) cols))

pub add_writes-WrittenBelow :
    (id : ℕ) (cs deps : List ℕ) (cols : Map Col)
    → Distinct cs
    → AllBelow id deps
    → ((c p : ℕ)
        → member c cs ≡ true
        → member p (get_or_create_col c cols).write_queue ≡ true
        → p < id)
    → WrittenBelow (suc id) cols
    → let s = add_writes id cs (deps, cols) in AllBelow id s.0 × WrittenBelow (suc id) s.1
unfolding add_writes append_write member
add_writes-WrittenBelow id [] deps cols u b old w = (b, w)
add_writes-WrittenBelow id (c ∷ cs) deps cols u b old w =
    let col = get_or_create_col c cols in
    let written = λ (j : ℕ). col_at-set j c (append_write col id) cols in
    add_writes-WrittenBelow id cs _ _ u.1
      (note-AllBelow id col deps (λ p. old c p (ground arith)) b)
      (λ j p m h. old j p (ground arith) (ground (arith, written j, u.0)))
      (λ j p h. ground (arith, w j p, w c p, written j, member-append p col.write_queue (id ∷ [])))
