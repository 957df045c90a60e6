-- ===== src/Scheduler/ControlManager/Migration/Enter.antt =====
-- `update to_id` of BatchMigrate in core/scheduler/control_manager.cpp, for the update partitions.
use tangram.Base.{
  ℕ, ◌+◌, ◌≤◌, ◌<◌, true, ◌&&◌, some, List, ◌≡◌, ◌≢◌, refl, sym, ap, ◌∙◌, inl, inr, subst, get, set,
  has, get_elem?, write_at, ltb, length, arith, ◌==◌, if◌then◌else◌, Bool-cases, IsSorted,
  Above-set, get-set, has-set, get-some,
}
use native.Mathlib.Decide.{ℕ_discrete}
use tangram.Scheduler.Tracker.{Tracker, count_parts}
use tangram.Scheduler.Tracker.Minimum.{IsTracked, count_parts-some}
use tangram.Scheduler.ControlManager.Migration.{leave_update, enter, enter_update}
use tangram.Scheduler.ControlManager.Migration.Leave.{IsLeft, leave_update-IsLeft, at, moved, has'}

module _ (nodes : List ℕ) (p from to : ℕ) (t : Tracker) (i : IsTracked nodes t)
    (here : get_elem? nodes p ≡ some from) (away : from ≢ to)
    (level : get 0 p t.part_versions ≡ get 0 from t.node_versions)
    (known : has to t.node_versions ≡ true) (holds : 0 < get 0 to t.node_count) (left : Tracker)
    (l : IsLeft nodes p from to t i here away level left) where
  abbrev placement : List ℕ
  placement = write_at nodes p to

  abbrev w : ℕ
  w = get 0 p t.part_versions

  abbrev u : ℕ
  u = get 0 to t.node_versions

  where_now : (q : ℕ) → get_elem? placement q ≡ (if p == q then some to else get_elem? nodes q)
  where_now q = at nodes p from to t i here away level q

  counts :
      (n v : ℕ)
      → count_parts placement n v t.part_versions + (if from == n && w == v then 1 else 0)
        ≡ count_parts nodes n v t.part_versions + (if to == n && w == v then 1 else 0)
  counts n v = moved nodes p from to t i here away level n v

  length_kept : (q : ℕ) → has q t.part_versions ≡ ltb q (length placement)
  length_kept q = has' nodes p from to t i here away level q

  -- No partition of `to` was behind its node.
  none_below : w < u → count_parts nodes to w t.part_versions ≡ 0
  none_below lt = elim (ℕ_discrete (count_parts nodes to w t.part_versions) 0) [
    | yes e ↦ e
    | no ne ↦
        let (q, there, e) = count_parts-some nodes to w t.part_versions i.sorted (omega arith) in
        absurd (omega (arith, i.low q to there, get-some 0 q t.part_versions e))
  ]

  -- What `to` has after the move makes the bookkeeping exact.
  joined :
      (t' : Tracker) (c v : ℕ)
      → t'.part_versions ≡ left.part_versions
      → IsSorted t'.node_versions
      → ((n : ℕ) → has n left.node_versions ≡ true → has n t'.node_versions ≡ true)
      → ((n : ℕ) → get 0 n t'.node_versions ≡ (if to == n then v else get 0 n left.node_versions))
      → ((n : ℕ) → get 0 n t'.node_count ≡ (if to == n then c else get 0 n left.node_count))
      → v ≤ w
      → v ≤ u
      → c ≡ count_parts placement to v t.part_versions
      → 0 < c
      → IsTracked placement t'
  joined t' c v parts sorted kept versions counts' le_w le_u exact pos =
      let same : t'.part_versions ≡ t.part_versions = parts ∙ l.parts in
      record {
        sorted = rw same i.sorted;
        nodes_sorted = sorted;
        parts = λ q. rw same (length_kept q);
        placed = λ q n h. kept n (l.placed n (ground (arith, where_now q, i.placed q n)));
        low = λ q n h. rw same (elim (ℕ_discrete to n) [
          | yes e ↦ ground (arith, versions n, where_now q, i.low q n)
          | no ne ↦ ground (arith, versions n, l.low q n h (λ z. ne (sym z)))
        ]);
        counted = λ n. rw same (elim (ℕ_discrete to n) [
          | yes e ↦
              subst
                (λ k.
                  get 0 k t'.node_count
                  ≡ count_parts placement k (get 0 k t'.node_versions) t.part_versions)
                e at_to
          | no ne ↦ rw (off n ne) (ground (arith, counts' n, l.counted n (λ z. ne (sym z))))
        ]);
        reached = λ q n h. elim (ℕ_discrete to n) [
          | yes e ↦ ground (arith, counts' n)
          | no ne ↦ ground (arith, counts' n, l.reached q n h (λ z. ne (sym z)))
        ];
      }
    where
      off : (n : ℕ) → to ≢ n → get 0 n t'.node_versions ≡ get 0 n left.node_versions
      off n ne = ground (arith, versions n)

      there : get 0 to t'.node_versions ≡ v
      there = ground (arith, versions to)

      at_to :
          get 0 to t'.node_count
          ≡ count_parts placement to (get 0 to t'.node_versions) t.part_versions
      at_to = rw there (ground (arith, counts' to))

  enter_update-IsTracked : IsTracked placement (enter_update p to left)
  unfolding enter_update enter
  enter_update-IsTracked =
      let here' : get 0 p left.part_versions ≡ w = ap (get 0 p) l.parts in
      elim (Bool-cases (ltb w u)) [
        | inl lower ↦
            let t' : Tracker = record left {
              node_count = set to 1 left.node_count;
              node_versions = set to w left.node_versions;
            } in
            rw (here', l.same_version, lower)
              (joined t' 1 w refl (Above-set 0 to w left.node_versions (omega arith) l.sorted)
                (λ n h. ground (arith, has-set n to w left.node_versions))
                (λ n. get-set 0 n to w left.node_versions) (λ n. get-set 0 n to 1 left.node_count)
                (omega arith) (ground arith)
                (ground (arith, counts to w, none_below (ground arith))) (omega arith))
        | inr not_lower ↦ elim (Bool-cases (w == u)) [
          | inl same ↦
              let c = get 0 to left.node_count + 1 in
              let t' : Tracker = record left { node_count = set to c left.node_count } in
              rw (here', l.same_version, not_lower, same)
                (joined t' c u refl l.sorted (λ n h. h) (λ n. ground (arith, l.same_version))
                  (λ n. get-set 0 n to c left.node_count) (ground arith) (omega arith)
                  (ground (arith, counts to u, l.same_count, i.counted to)) (omega arith))
          | inr higher ↦
              rw (here', l.same_version, not_lower, higher)
                (joined left (get 0 to left.node_count) u refl l.sorted (λ n h. h)
                  (λ n. ground (arith, l.same_version)) (λ n. ground arith) (ground arith)
                  (omega arith) (ground (arith, counts to u, l.same_count, i.counted to))
                  (omega (arith, l.same_count)))
        ]
      ]

enter_update-parts :
    (p to : ℕ) (t : Tracker) → (enter_update p to t).part_versions ≡ t.part_versions
unfolding enter_update enter
enter_update-parts p to t = ground arith

pub leave_enter-IsTracked :
    (nodes : List ℕ) (p from to : ℕ) (t : Tracker)
    → IsTracked nodes t
    → get_elem? nodes p ≡ some from
    → from ≢ to
    → get 0 p t.part_versions ≡ get 0 from t.node_versions
    → has to t.node_versions ≡ true
    → 0 < get 0 to t.node_count
    → ((q : ℕ) → get 0 q t.part_versions < 1000000)
    → (left : Tracker) × (leave_update (write_at nodes p to) from t ≡ some left)
      × IsTracked (write_at nodes p to) (enter_update p to left)
      × ((enter_update p to left).part_versions ≡ t.part_versions)
leave_enter-IsTracked nodes p from to t i here away level known holds small =
    let (left, e, l) = leave_update-IsLeft nodes p from to t i here away level small in
    (
      left,
      e,
      enter_update-IsTracked nodes p from to t i here away level known holds left l,
      enter_update-parts p to left ∙ l.parts,
    )
