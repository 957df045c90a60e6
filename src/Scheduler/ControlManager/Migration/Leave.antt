-- ===== src/Scheduler/ControlManager/Migration/Leave.antt =====
-- `update from_id` of BatchMigrate in core/scheduler/control_manager.cpp, for the update partitions.
use tangram.Base.{
  ℕ, ◌+◌, ◌-◌, ◌≤◌, ◌<◌, true, ◌&&◌, some, List, ◌≡◌, ◌≢◌, refl, sym, ap, ◌∙◌, inl, inr, lookup,
  get, set, has, get_elem?, write_at, get_elem?-write_at, length-write_at, lt-length, ltb, length,
  arith, ◌==◌, if◌then◌else◌, Bool-cases, IsSorted, Above-set, get-set, has-set, lookup-has,
}
use native.Mathlib.Decide.{ℕ_discrete}
use tangram.Scheduler.Tracker.{Tracker, count_parts}
use tangram.Scheduler.Tracker.Minimum.{IsTracked, count_parts-write_at, count_parts-pos}
use tangram.Scheduler.ControlManager.Migration.{least_on, count_on, recount, leave_update}
use tangram.Scheduler.ControlManager.Migration.Recount.{
  least_on-below, least_on-found, count_on_lem,
}

-- Partition `p` of node `from`, at the version of the node, moves to node `to`, which holds a partition.
module _ (nodes : List ℕ) (p from to : ℕ) (t : Tracker) (i : IsTracked nodes t)
    (here : get_elem? nodes p ≡ some from) (away : from ≢ to)
    (level : get 0 p t.part_versions ≡ get 0 from t.node_versions) where
  abbrev nodes' : List ℕ
  nodes' = write_at nodes p to

  abbrev w : ℕ
  w = get 0 p t.part_versions

  pub at : (q : ℕ) → get_elem? nodes' q ≡ (if p == q then some to else get_elem? nodes q)
  at q = get_elem?-write_at nodes p q to (lt-length nodes p here)

  pub found : lookup p t.part_versions ≡ some w
  found = lookup-has 0 p t.part_versions (i.parts p ∙ lt-length nodes p here)

  -- The counts before and after.
  pub moved :
      (n v : ℕ)
      → count_parts nodes' n v t.part_versions + (if from == n && w == v then 1 else 0)
        ≡ count_parts nodes n v t.part_versions + (if to == n && w == v then 1 else 0)
  moved n v = count_parts-write_at nodes p from to n v w t.part_versions i.sorted here found

  -- The bookkeeping is exact but for node `to`, which is as it was.
  pub record IsLeft (left : Tracker) : Type 0 where
    pub parts : left.part_versions ≡ t.part_versions
    pub sorted : IsSorted left.node_versions
    pub placed : (n : ℕ) → has n t.node_versions ≡ true → has n left.node_versions ≡ true
    pub low :
        (q n : ℕ)
        → get_elem? nodes' q ≡ some n
        → n ≢ to
        → get 0 n left.node_versions ≤ get 0 q t.part_versions
    pub counted :
        (n : ℕ)
        → n ≢ to
        → get 0 n left.node_count
          ≡ count_parts nodes' n (get 0 n left.node_versions) t.part_versions
    pub reached : (q n : ℕ) → get_elem? nodes' q ≡ some n → n ≢ to → 0 < get 0 n left.node_count
    pub same_version : get 0 to left.node_versions ≡ get 0 to t.node_versions
    pub same_count : get 0 to left.node_count ≡ get 0 to t.node_count

  some-IsLeft :
      1 < get 0 from t.node_count
      → IsLeft (record t { node_count = set from (get 0 from t.node_count - 1) t.node_count })
  some-IsLeft more =
      let c = get 0 from t.node_count - 1 in
      record {
        parts = refl;
        sorted = i.nodes_sorted;
        placed = λ n h. h;
        low = λ q n h ne. ground (arith, at q, i.low q n);
        counted = λ n ne. ground (
          arith,
          get-set 0 n from c t.node_count,
          moved n (get 0 n t.node_versions),
          i.counted n,
        );
        reached = λ q n h ne. ground (arith, at q, get-set 0 n from c t.node_count, i.reached q n);
        same_version = refl;
        same_count = ground (arith, get-set 0 to from c t.node_count);
      }

  pub has' : (q : ℕ) → has q t.part_versions ≡ ltb q (length nodes')
  has' q = rw (length-write_at nodes p to) (i.parts q)

  abbrev new_min : ℕ
  new_min = least_on 0 nodes' from t.part_versions 1000000

  from_zero : (q : ℕ) → get 0 (0 + q) t.part_versions ≡ get 0 q t.part_versions
  from_zero q = ap (λ x. get 0 x t.part_versions) (omega arith)

  below : (q : ℕ) → get_elem? nodes' q ≡ some from → new_min ≤ get 0 q t.part_versions
  below q h = ground (arith, least_on-below 0 nodes' from t.part_versions 1000000 q h, from_zero q)

  other_version :
      (n : ℕ) → from ≢ n → get 0 n (set from new_min t.node_versions) ≡ get 0 n t.node_versions
  other_version n ne = ground (arith, get-set 0 n from new_min t.node_versions)

  exact :
      count_on 0 nodes' from new_min t.part_versions
      ≡ count_parts nodes' from new_min t.part_versions
  exact = count_on_lem nodes' from new_min t.part_versions i.sorted has'

  module _ (small : (q : ℕ) → get 0 q t.part_versions < 1000000) where
    -- The least version is that of a partition, so that the count is not 0.
    some_at :
        (q : ℕ)
        → get_elem? nodes' q ≡ some from
        → 0 < count_on 0 nodes' from new_min t.part_versions
    some_at q h = elim (least_on-found 0 nodes' from t.part_versions 1000000) [
      | inl e ↦ absurd (omega (arith, small q, below q h))
      | inr (j, there, e) ↦
          let known = lookup-has 0 j t.part_versions (has' j ∙ lt-length nodes' j there) in
          omega (
            arith,
            exact,
            count_parts-pos nodes' from j new_min t.part_versions there
                (known ∙ ap some (sym (e ∙ from_zero j))),
          )
    ]

    none-IsLeft : IsLeft (recount nodes' from t)
    unfolding recount
    none-IsLeft =
        let c = count_on 0 nodes' from new_min t.part_versions in
        record {
          parts = refl;
          sorted = Above-set 0 from new_min t.node_versions (omega arith) i.nodes_sorted;
          placed = λ n h. ground (arith, has-set n from new_min t.node_versions);
          low = λ q n h ne.
              ground (arith, get-set 0 n from new_min t.node_versions, at q, i.low q n, below q);
          counted = λ n ne. elim (ℕ_discrete from n) [
            | yes e ↦ ground (
              arith,
              get-set 0 n from new_min t.node_versions,
              get-set 0 n from c t.node_count,
              exact,
            )
            | no other ↦ rw (other_version n other) (
                ground (
                  arith,
                  get-set 0 n from c t.node_count,
                  moved n (get 0 n t.node_versions),
                  i.counted n,
                ))
          ];
          reached = λ q n h ne.
              ground (arith, get-set 0 n from c t.node_count, at q, i.reached q n, some_at q);
          same_version = ground (arith, get-set 0 to from new_min t.node_versions);
          same_count = ground (arith, get-set 0 to from c t.node_count);
        }

    -- The CHECK holds: a partition at the version of its node is counted.
    pub leave_update-IsLeft :
        (left : Tracker) × (leave_update nodes' from t ≡ some left) × IsLeft left
    unfolding leave_update
    leave_update-IsLeft = elim (Bool-cases (ltb 1 (get 0 from t.node_count))) [
      | inl more ↦ (_, ground arith, some-IsLeft (ground arith))
      | inr last ↦ (_, ground (arith, i.reached p from here), none-IsLeft)
    ]
