-- ===== src/Plan/Context/Built.antt =====
-- core/plan/context.hpp: the contexts that calls build, with their graphs.
use tangram.Base.{
  ℕ, zero, suc, some_injective, ◌+◌, ◌≡◌, refl, arith, Bool, true, false, ◌==◌, some, List, [], ◌∷◌,
  ◌++◌, length, member, get_elem?, ap, ◌∙◌, sym, Bool-cases, inl, inr,
}
use native.Mathlib.Nat.{add-zero}
use tangram.Plan.Spec.{
  Url, Spec, SpecWrapper, get_read_write, map_join_read_write, map_with_join_read_write, distribute,
  load, map_join, map_with_join, write, checkpoint, load_checkpoint,
}
use tangram.Plan.Dag.{Dag, add_dag_node, empty_dag}
use tangram.Plan.Dag.Program.{add_plans, WritesOnce}
use tangram.Plan.Context.{
  Context, new_context, Options, default_options, make_collection, make_plan, distribute_data,
  load_lines, placeholder, write_collection, checkpoint_collection, loadcheckpoint, map_join_spec,
  mapupdate, mappartupdate, mappartwithupdate, distribute_by_key, foreach, count_collection,
  sort_each_partition,
}

-- The contexts of programs: any calls, one after the other.
pub data Built : Context → Type 0 where
  begin : Built new_context
  then_distribute : {c : Context} (n : ℕ) → Built c → Built (distribute_data n c).1
  then_distribute_by_key : {c : Context} (n : ℕ) → Built c → Built (distribute_by_key n c).1
  then_load :
      {c : Context} (url : Url) (meta whole : Bool)
      → Built c
      → Built (load_lines url meta whole c).1
  then_placeholder : {c : Context} (n : ℕ) → Built c → Built (placeholder n c).1
  then_foreach : {c : Context} (id : ℕ) → Built c → Built (foreach id c)
  then_count : {c : Context} (id : ℕ) → Built c → Built (count_collection id c)
  then_write : {c : Context} (id : ℕ) (url : Url) → Built c → Built (write_collection id url c)
  then_checkpoint :
      {c : Context} (id : ℕ) (url : Url) → Built c → Built (checkpoint_collection id url c)
  then_loadcheckpoint :
      {c : Context} (id : ℕ) (url : Url) → Built c → Built (loadcheckpoint id url c)
  then_mapupdate : {c : Context} (o : Options) (c1 c2 : ℕ) → Built c → Built (mapupdate o c1 c2 c)
  then_mappartupdate :
      {c : Context} (o : Options) (c1 c2 : ℕ) → Built c → Built (mappartupdate o c1 c2 c)
  then_mappartwithupdate :
      {c : Context} (o : Options) (c1 c2 c3 : ℕ) → Built c → Built (mappartwithupdate o c1 c2 c3 c)
  then_sort : {c : Context} (id : ℕ) → Built c → Built (sort_each_partition id c)

-- What the graph has a plan read and write.
unfoldable pub access_of : Spec → List ℕ × List ℕ
access_of (distribute id n) = ([], id ∷ [])
access_of (load id url meta whole) = ([], id ∷ [])
access_of (map_join s) = (s.map_collection_id ∷ [], s.update_collection_id ∷ [])
access_of (map_with_join s w) = (s.map_collection_id ∷ w ∷ [], s.update_collection_id ∷ [])
access_of (write id url) = (id ∷ [], [])
access_of (checkpoint id url) = (id ∷ [], [])
access_of (load_checkpoint id url) = ([], id ∷ [])

abbrev pub accesses : List SpecWrapper → List (List ℕ × List ℕ)
accesses [] = []
accesses (p ∷ ps) = access_of p.spec ∷ accesses ps

-- The ids count from `i` on.
abbrev pub Numbered : ℕ → List SpecWrapper → Type 0
Numbered i [] = Unit
Numbered i (p ∷ ps) = (p.id ≡ i) × Numbered (suc i) ps

pub record IsBuilt (c : Context) : Type 0 where
  pub graph : c.dag ≡ add_plans 0 (accesses c.plans) empty_dag
  pub numbered : Numbered 0 c.plans

add_plans-append :
    (i : ℕ) (ps : List SpecWrapper) (p : SpecWrapper) (d : Dag)
    → add_plans i (accesses (ps ++ p ∷ [])) d
      ≡ add_dag_node
          (i + length ps)
          (access_of p.spec).0
          (access_of p.spec).1
          (add_plans i (accesses ps) d)
unfolding add_plans
add_plans-append i [] p d = rw (add-zero i) refl
add_plans-append i (q ∷ ps) p d =
    let next : suc i + length ps ≡ i + suc (length ps) = omega arith in
    rw (← next)
      (add_plans-append (suc i) ps p (add_dag_node i (access_of q.spec).0 (access_of q.spec).1 d))

Numbered-append :
    (i : ℕ) (ps : List SpecWrapper) (p : SpecWrapper)
    → Numbered i ps
    → p.id ≡ i + length ps
    → Numbered i (ps ++ p ∷ [])
Numbered-append i [] p n h = (omega (arith, h), tt)
Numbered-append i (q ∷ ps) p n h = (n.0, Numbered-append (suc i) ps p n.1 (omega (arith, h)))

make_plan-IsBuilt :
    (s : Spec) {c : Context} → IsBuilt c → IsBuilt (make_plan s (access_of s).0 (access_of s).1 c)
unfolding make_plan
make_plan-IsBuilt s {c} b =
    let p : SpecWrapper = record { id = length c.plans; spec = s } in
    let from_zero : 0 + length c.plans ≡ length c.plans = omega arith in
    record {
      graph = rw b.graph (
          sym (
            add_plans-append 0 c.plans p empty_dag
            ∙ ap
                (λ n.
                  add_dag_node n (access_of s).0 (access_of s).1
                    (add_plans 0 (accesses c.plans) empty_dag))
                from_zero));
      numbered = Numbered-append 0 c.plans p b.numbered (omega arith);
    }

-- A new collection leaves the plans and the graph as they are.
make_collection-IsBuilt : {c : Context} → IsBuilt c → IsBuilt (make_collection c).1
unfolding make_collection
make_collection-IsBuilt b = record { graph = b.graph; numbered = b.numbered }

placeholder-IsBuilt : (n : ℕ) {c : Context} → IsBuilt c → IsBuilt (placeholder n c).1
unfolding placeholder access_of make_collection
placeholder-IsBuilt n {c} b =
    make_plan-IsBuilt (distribute c.num_collections n) (make_collection-IsBuilt b)

distribute_data-IsBuilt : (n : ℕ) {c : Context} → IsBuilt c → IsBuilt (distribute_data n c).1
unfolding distribute_data access_of make_collection
distribute_data-IsBuilt n {c} b =
    make_plan-IsBuilt (distribute c.num_collections n) (make_collection-IsBuilt b)

mapupdate-IsBuilt :
    (o : Options) (c1 c2 : ℕ) {c : Context} → IsBuilt c → IsBuilt (mapupdate o c1 c2 c)
unfolding mapupdate map_join_spec access_of
mapupdate-IsBuilt o c1 c2 b = make_plan-IsBuilt (map_join (map_join_spec o c1 c2)) b

foreach-IsBuilt : (id : ℕ) {c : Context} → IsBuilt c → IsBuilt (foreach id c)
unfolding foreach
foreach-IsBuilt id {c} b =
    mapupdate-IsBuilt default_options id (placeholder 1 c).0 (placeholder-IsBuilt 1 b)

pub Built-IsBuilt : {c : Context} → Built c → IsBuilt c
unfolding access_of map_join_spec load_lines make_collection write_collection checkpoint_collection
    loadcheckpoint mappartupdate mappartwithupdate sort_each_partition distribute_by_key
    count_collection
Built-IsBuilt begin = record { graph = unfold add_plans in refl; numbered = tt }
Built-IsBuilt (then_distribute n b) = distribute_data-IsBuilt n (Built-IsBuilt b)
Built-IsBuilt (then_distribute_by_key {c} n b) =
    let (tmp, c1) = distribute_data 1 c in
    mapupdate-IsBuilt default_options tmp (placeholder n c1).0
      (placeholder-IsBuilt n (distribute_data-IsBuilt 1 (Built-IsBuilt b)))
Built-IsBuilt (then_load {c} url meta whole b) =
    make_plan-IsBuilt (load c.num_collections url meta whole)
      (make_collection-IsBuilt (Built-IsBuilt b))
Built-IsBuilt (then_placeholder n b) = placeholder-IsBuilt n (Built-IsBuilt b)
Built-IsBuilt (then_foreach id b) = foreach-IsBuilt id (Built-IsBuilt b)
Built-IsBuilt (then_count {c} id b) =
    let (tmp, c1) = placeholder 1 c in
    foreach-IsBuilt tmp
      (mapupdate-IsBuilt default_options id tmp (placeholder-IsBuilt 1 (Built-IsBuilt b)))
Built-IsBuilt (then_write id url b) = make_plan-IsBuilt (write id url) (Built-IsBuilt b)
Built-IsBuilt (then_checkpoint id url b) = make_plan-IsBuilt (checkpoint id url) (Built-IsBuilt b)
Built-IsBuilt (then_loadcheckpoint id url b) =
    make_plan-IsBuilt (load_checkpoint id url) (Built-IsBuilt b)
Built-IsBuilt (then_mapupdate o c1 c2 b) = mapupdate-IsBuilt o c1 c2 (Built-IsBuilt b)
Built-IsBuilt (then_mappartupdate o c1 c2 b) =
    make_plan-IsBuilt (map_join (map_join_spec o c1 c2)) (Built-IsBuilt b)
Built-IsBuilt (then_mappartwithupdate o c1 c2 c3 b) =
    make_plan-IsBuilt (map_with_join (map_join_spec o c1 c3) c2) (Built-IsBuilt b)
Built-IsBuilt (then_sort id b) =
    make_plan-IsBuilt (map_join (map_join_spec default_options id id)) (Built-IsBuilt b)

pub length-accesses : (ps : List SpecWrapper) → length (accesses ps) ≡ length ps
length-accesses [] = refl
length-accesses (p ∷ ps) = ap (λ n. suc n) (length-accesses ps)

access_of-WritesOnce : (s : Spec) → WritesOnce (access_of s ∷ [])
unfolding access_of member
access_of-WritesOnce (distribute id n) = ((refl, tt), tt)
access_of-WritesOnce (load id url meta whole) = ((refl, tt), tt)
access_of-WritesOnce (map_join s) = ((refl, tt), tt)
access_of-WritesOnce (map_with_join s w) = ((refl, tt), tt)
access_of-WritesOnce (write id url) = (tt, tt)
access_of-WritesOnce (checkpoint id url) = (tt, tt)
access_of-WritesOnce (load_checkpoint id url) = ((refl, tt), tt)

pub accesses-WritesOnce : (ps : List SpecWrapper) → WritesOnce (accesses ps)
accesses-WritesOnce [] = tt
accesses-WritesOnce (p ∷ ps) = ((access_of-WritesOnce p.spec).0, accesses-WritesOnce ps)

get_elem?-accesses :
    (ps : List SpecWrapper) (i k : ℕ) {p : SpecWrapper}
    → Numbered i ps
    → get_elem? ps k ≡ some p
    → (p.id ≡ i + k) × (get_elem? (accesses ps) k ≡ some (access_of p.spec))
get_elem?-accesses [] i k n e = absurd (cc)
get_elem?-accesses (q ∷ ps) i zero n e =
    let same : q ≡ _ = some_injective e in
    (ap (λ r. r.id) (sym same) ∙ n.0 ∙ omega arith, ap (λ r. some (access_of r.spec)) same)
get_elem?-accesses (q ∷ ps) i (suc k) n e =
    let (h, a) = get_elem?-accesses ps (suc i) k n.1 e in (omega (arith, h), a)

abbrev pub is_write : Spec → Bool
is_write (write id url) = true
is_write (distribute id n) = false
is_write (load id url meta whole) = false
is_write (map_join s) = false
is_write (map_with_join s w) = false
is_write (checkpoint id url) = false
is_write (load_checkpoint id url) = false

-- A plan that is no write plan uses the same collections for the graph and for the scheduler's account.
access_of-get_read_write :
    (s : Spec) (a : ℕ)
    → is_write s ≡ false
    → ((access_of s).1 ≡ (get_read_write s).1)
      × (member a ((access_of s).0 ++ (access_of s).1)
          ≡ member a ((get_read_write s).0 ++ (get_read_write s).1))
unfolding access_of get_read_write map_join_read_write map_with_join_read_write member
access_of-get_read_write (distribute id n) a h = (refl, refl)
access_of-get_read_write (load id url meta whole) a h = (refl, refl)
access_of-get_read_write (map_join s) a h =
    elim (Bool-cases (s.map_collection_id == s.update_collection_id)) [
      | inl e ↦ (ground arith, ground arith)
      | inr e ↦ (ground arith, ground arith)
    ]
access_of-get_read_write (map_with_join s w) a h =
    elim (Bool-cases (s.map_collection_id == s.update_collection_id)) [
      | inl e ↦ (refl, ground arith)
      | inr e ↦ (refl, ground arith)
    ]
access_of-get_read_write (write id url) a h = cc
access_of-get_read_write (checkpoint id url) a h = (refl, refl)
access_of-get_read_write (load_checkpoint id url) a h = (refl, refl)

-- In a program that calls of Context build, a plan has its place in the list as its id, and the graph is that
-- of a list of reads and writes. For a plan that is no write plan, the collections that it has there are those
-- that GetReadWrite gives the scheduler for its account: the same writes, and the same collections in all.
pub Built-accounted :
    {c : Context} (k a : ℕ) {p : SpecWrapper}
    → Built c
    → get_elem? c.plans k ≡ some p
    → is_write p.spec ≡ false
    → (uses : List (List ℕ × List ℕ)) × (reads writes : List ℕ) × (c.dag
        ≡ add_plans 0 uses empty_dag)
      × (p.id ≡ k)
      × (get_elem? uses k ≡ some (reads, writes))
      × (writes ≡ (get_read_write p.spec).1)
      × (member a (reads ++ writes)
          ≡ member a ((get_read_write p.spec).0 ++ (get_read_write p.spec).1))
Built-accounted {c} k a {p} b e h =
    let s = Built-IsBuilt b in
    let (id, at_k) = get_elem?-accesses c.plans 0 k s.numbered e in
    let (w, m) = access_of-get_read_write p.spec a h in
    (
      accesses c.plans,
      (access_of p.spec).0,
      (access_of p.spec).1,
      s.graph,
      omega (arith, id),
      at_k,
      w,
      m,
    )
