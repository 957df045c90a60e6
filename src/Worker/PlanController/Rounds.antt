-- ===== src/Worker/PlanController/Rounds.antt =====
-- core/worker/plan_controller.cpp: a version of an updated partition, from its first joined update to its last.
use tangram.Base.{
  ℕ, ◌+◌, ◌≡◌, ◌≤◌, ◌<◌, refl, arith, ◌==◌, if◌then◌else◌, Bool, true, not, ◌&&◌, some, List, [],
  ◌∷◌, ◌++◌, ◌∙◌, ap, sym, get, length, member, insert, IsAscending, insert-IsAscending,
  length-insert, length-append, Bool-cases, inl, inr,
}
use tangram.Worker.Elem.{Effect}
use tangram.Worker.PlanController.{PlanController, tracked}
use tangram.Worker.PlanController.Joins.{finish_join, insert_all}
use tangram.Worker.PlanController.Versions.{Agrees, Joined, finish_join-Joined}

-- Ends of updates of version `v` of partition `p`, which join the upstream partitions `ups`. Between them the
-- controller does anything that leaves the versions, and what is joined, as they are.
pub data Round (p v : ℕ) : List ℕ → PlanController → PlanController → Type 0 where
  stop : {s : PlanController} → Round p v [] s s
  other :
      {ups : List ℕ} {s t u : PlanController} → Agrees s t → Round p v ups t u → Round p v ups s u
  joins :
      (ups later : List ℕ) {all : List ℕ} {s t u : PlanController} {es : List Effect}
      → finish_join p v ups s ≡ some (t, es)
      → all ≡ ups ++ later
      → Round p v later t u
      → Round p v all s u

-- The ids are distinct, and none is in `t`.
unfoldable pub fresh : List ℕ → List ℕ → Bool
fresh [] t = true
fresh (u ∷ us) t = not (member u t) && fresh us (insert u t)

insert_all-IsAscending : (us t : List ℕ) → IsAscending t → IsAscending (insert_all us t)
unfolding insert_all
insert_all-IsAscending [] t a = a
insert_all-IsAscending (u ∷ us) t a =
    insert_all-IsAscending us (insert u t) (insert-IsAscending u t a)

length-insert_all :
    (us t : List ℕ)
    → IsAscending t
    → fresh us t ≡ true
    → length (insert_all us t) ≡ length t + length us
unfolding insert_all fresh
length-insert_all [] t a f = omega arith
length-insert_all (u ∷ us) t a f =
    ground
      (arith, length-insert u t a, length-insert_all us (insert u t) (insert-IsAscending u t a))

fresh-append : (us vs t : List ℕ) → fresh (us ++ vs) t ≡ (fresh us t && fresh vs (insert_all us t))
unfolding insert_all fresh
fresh-append [] vs t = refl
fresh-append (u ∷ us) vs t = ground (arith, fresh-append us vs (insert u t))

fresh_empty : (us : List ℕ) → length us ≡ 0 → fresh us [] ≡ true
unfolding fresh
fresh_empty [] h = refl
fresh_empty (u ∷ us) h = absurd (omega arith)

Joined-at :
    (p v : ℕ) (us : List ℕ) (s s1 : PlanController) (t : List ℕ) (n : ℕ)
    → Joined p v us s s1
    → tracked p v s ≡ t
    → s.num_upstream_part ≡ n
    → (get 0 p s1.update_versions
        ≡ get 0 p s.update_versions + (if length (insert_all us t) == n then 1 else 0))
      × (tracked p v s1 ≡ (if length (insert_all us t) == n then [] else insert_all us t))
      × (s1.num_upstream_part ≡ n)
Joined-at p v us s s1 t n j e en =
    (rw (← e, ← en) j.version, rw (← e, ← en) j.joined, j.upstream ∙ en)

-- With fewer than all the upstream partitions the version stays, and they are kept; with all it is the next.
Round-from :
    {p v : ℕ} {ups : List ℕ} {s u : PlanController} (n : ℕ) (t : List ℕ)
    → Round p v ups s u
    → tracked p v s ≡ t
    → s.num_upstream_part ≡ n
    → IsAscending t
    → fresh ups t ≡ true
    → length t + length ups ≤ n
    → length t < n
    → (get 0 p u.update_versions
        ≡ get 0 p s.update_versions + (if length t + length ups == n then 1 else 0))
      × (length (tracked p v u) ≡ (if length t + length ups == n then 0 else length t + length ups))
Round-from n t stop e en a f l m = (ground arith, rw e (ground arith))
Round-from n t (other g r) e en a f l m =
    let (h, k) = Round-from n t r (g.joined _ _ ∙ e) (g.upstream ∙ en) a f l m in
    (rw (← g.versions _) h, k)
Round-from {p} {v} {ups} {s} {u} n t (joins us later {t = s1} h split r) e en a f l m =
    let j = finish_join-Joined p v us s (s1, _) h in
    let fr : (fresh us t && fresh later (insert_all us t)) ≡ true =
      sym (fresh-append us later t) ∙ ap (λ xs. fresh xs t) (sym split) ∙ f in
    let grown = length-insert_all us t a (ground arith) in
    let len : length ups ≡ length us + length later = ap length split ∙ length-append us later in
    let (ver, now, num) = Joined-at p v us s s1 t n j e en in
    elim (Bool-cases (length (insert_all us t) == n)) [
      | inl whole ↦
          let none_left : length later ≡ 0 = ground arith in
          let (x, y) =
            Round-from n [] r (now ∙ rw whole refl) num tt (fresh_empty later none_left)
              (rw none_left (omega arith)) (ground arith) in
          (ground (arith, x, ver), ground (arith, y))
      | inr part ↦
          let (x, y) =
            Round-from n (insert_all us t) r (now ∙ rw part refl) num
              (insert_all-IsAscending us t a) (ground arith) (omega arith) (ground arith) in
          (ground (arith, x, ver), ground (arith, y))
    ]

-- Ends of updates of one version of a partition, which together join distinct upstream partitions, at most as
-- many as there are, from none on; between them the controller does anything that leaves the versions and what
-- is joined. The version of the partition rises by one if they are all the upstream partitions, and then none
-- is kept as joined; else it stays, and as many are kept as were joined.
pub Round-version :
    (p v : ℕ) (ups : List ℕ) (s u : PlanController)
    → Round p v ups s u
    → tracked p v s ≡ []
    → fresh ups [] ≡ true
    → length ups ≤ s.num_upstream_part
    → 0 < s.num_upstream_part
    → (get 0 p u.update_versions
        ≡ get 0 p s.update_versions + (if length ups == s.num_upstream_part then 1 else 0))
      × (length (tracked p v u) ≡ (if length ups == s.num_upstream_part then 0 else length ups))
Round-version p v ups s u r e f l m =
    let (x, y) = Round-from s.num_upstream_part [] r e refl tt f (omega arith) m in
    (ground (arith, x), ground (arith, y))
