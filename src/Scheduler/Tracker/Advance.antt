-- ===== src/Scheduler/Tracker/Advance.antt =====
-- HandleUpdateMapVersion and the first half of HandleUpdateJoinVersion of core/scheduler/control_manager.cpp.
use tangram.Base.{
  ℕ, ◌+◌, ◌-◌, ◌≤◌, ◌<◌, Bool, true, false, ◌&&◌, some, List, ◌≡◌, ◌≢◌, refl, ◌∙◌, lookup,
  lookup-set_self, get, set, has, touch, get_elem?, ltb, length, IsSorted, get-set, get-touch,
  has-set, has-touch, lookup-has, arith, ◌==◌, if◌then◌else◌, Above-set, lt-length,
}
use native.Mathlib.Decide.{ℕ_discrete}
use tangram.Scheduler.Tracker.{Tracker, count_parts, next_version, count_down, advance_part}
use tangram.Scheduler.Tracker.Minimum.{IsTracked, count_parts-set, count_parts-pos}

-- One message: partition `p` of node `n` goes from version `v` to the next.
module _ (part_to_node : List ℕ) (t : Tracker) (p n : ℕ) (here : get_elem? part_to_node p ≡ some n)
    (i : IsTracked part_to_node t) where
  abbrev version : ℕ
  version = get 0 p t.part_versions

  abbrev moved : Tracker
  moved = record t {
    part_versions = set p (version + 1) t.part_versions;
    node_versions = touch 0 n t.node_versions;
  }

  stood : lookup p t.part_versions ≡ some version
  stood = lookup-has 0 p t.part_versions (i.parts p ∙ lt-length part_to_node p here)

  moved-parts : (q : ℕ) → has q moved.part_versions ≡ ltb q (length part_to_node)
  moved-parts q = ground (
    arith,
    has-set q p (version + 1) t.part_versions,
    i.parts q,
    i.parts p,
    lt-length part_to_node p here,
  )

  moved-nodes-IsSorted : IsSorted moved.node_versions
  unfolding touch
  moved-nodes-IsSorted = Above-set 0 n _ t.node_versions (omega arith) i.nodes_sorted

  moved-placed : (q m : ℕ) → get_elem? part_to_node q ≡ some m → has m moved.node_versions ≡ true
  moved-placed q m e = ground (arith, has-touch 0 m n t.node_versions, i.placed q m)

  moved-low :
      (q m : ℕ)
      → get_elem? part_to_node q ≡ some m
      → get 0 m moved.node_versions ≤ get 0 q moved.part_versions
  moved-low q m e = ground (
    arith,
    get-touch 0 m n t.node_versions,
    get-set 0 q p (version + 1) t.part_versions,
    i.low q m,
  )

  moved-count :
      (m v : ℕ)
      → count_parts part_to_node m v moved.part_versions + (if n == m && version == v then 1 else 0)
        ≡ count_parts part_to_node m v t.part_versions
          + (if n == m && version + 1 == v then 1 else 0)
  moved-count m v = ground (
    arith,
    count_parts-set part_to_node m v p version (version + 1) t.part_versions i.sorted stood,
  )

  -- The partition was ahead of its node.
  ahead-IsTracked : get 0 n t.node_versions ≢ version → IsTracked part_to_node moved
  ahead-IsTracked ne = record {
    sorted = Above-set 0 p (version + 1) t.part_versions (omega arith) i.sorted;
    nodes_sorted = moved-nodes-IsSorted;
    parts = moved-parts;
    placed = moved-placed;
    low = moved-low;
    counted = λ m. ground (
      arith,
      get-touch 0 m n t.node_versions,
      i.counted m,
      moved-count m (get 0 m t.node_versions),
      i.low p n here,
    );
    reached = i.reached;
  }

  -- Others of the node are left at its version.
  abbrev left_some : Tracker
  left_some = record moved { node_count = set n (get 0 n t.node_count - 1) t.node_count }

  left_some-IsTracked :
      get 0 n t.node_versions ≡ version
      → get 0 n t.node_count - 1 ≢ 0
      → IsTracked part_to_node left_some
  left_some-IsTracked at some_left = record {
    sorted = Above-set 0 p (version + 1) t.part_versions (omega arith) i.sorted;
    nodes_sorted = moved-nodes-IsSorted;
    parts = moved-parts;
    placed = moved-placed;
    low = moved-low;
    counted = λ m. ground (
      arith,
      get-touch 0 m n t.node_versions,
      get-set 0 m n (get 0 n t.node_count - 1) t.node_count,
      i.counted m,
      moved-count m (get 0 m t.node_versions),
    );
    reached = λ q m e.
        ground (arith, get-set 0 m n (get 0 n t.node_count - 1) t.node_count, i.reached q m);
  }

  -- No partition of the node is left at its version.
  none_left :
      get 0 n t.node_versions ≡ version
      → get 0 n t.node_count - 1 ≡ 0
      → (q : ℕ) → get_elem? part_to_node q ≡ some n
      → version + 1 ≤ get 0 q moved.part_versions
  none_left at empty q e =
      let there = lookup-has 0 q moved.part_versions (moved-parts q ∙ lt-length part_to_node q e) in
      ground (
        arith,
        moved-count n version,
        i.counted n,
        i.low q n e,
        get-set 0 q p (version + 1) t.part_versions,
        count_parts-pos part_to_node n q version moved.part_versions e,
        there,
      )

  next_version-IsTracked :
      get 0 n t.node_versions ≡ version
      → get 0 n t.node_count - 1 ≡ 0
      → IsTracked part_to_node (next_version part_to_node n moved)
  unfolding next_version
  next_version-IsTracked at empty =
      let v = get 0 n moved.node_versions + 1 in
      let c = count_parts part_to_node n v moved.part_versions in
      let versions = λ (m : ℕ). get-set 0 m n v moved.node_versions in
      let same = get-touch 0 n n t.node_versions in
      record {
        sorted = Above-set 0 p (version + 1) t.part_versions (omega arith) i.sorted;
        nodes_sorted = Above-set 0 n v _ (omega arith) moved-nodes-IsSorted;
        parts = moved-parts;
        placed = λ q m e. ground (arith, has-set m n v moved.node_versions, moved-placed q m e);
        low = λ q m e. ground (arith, versions m, same, moved-low q m e, none_left at empty q);
        counted = λ m. ground (
          arith,
          versions m,
          get-touch 0 m n t.node_versions,
          get-set 0 m n c t.node_count,
          i.counted m,
          moved-count m (get 0 m t.node_versions),
        );
        reached = λ q m e. ground (
          arith,
          same,
          get-set 0 m n c t.node_count,
          i.reached q m e,
          count_parts-pos part_to_node n p (version + 1) moved.part_versions here
              (lookup-set_self p (version + 1) t.part_versions),
        );
      }

  -- What one message does to a node's version.
  pub record Advanced (t' : Tracker) (went_on : Bool) : Type 0 where
    pub tracked : IsTracked part_to_node t'
    pub parts : t'.part_versions ≡ set p (version + 1) t.part_versions
    pub nodes :
        (m : ℕ)
        → get 0 m t'.node_versions
          ≡ (if went_on && n == m then get 0 m t.node_versions + 1 else get 0 m t.node_versions)
    pub known : (m : ℕ) → has m t.node_versions ≡ true → has m t'.node_versions ≡ true
    pub behind : went_on ≡ true → get 0 n t.node_versions ≡ version
    pub others :
        went_on ≡ false
        → get 0 n t.node_versions ≡ version
        → 0 < count_parts part_to_node n version t'.part_versions
    pub last : went_on ≡ true → count_parts part_to_node n version t'.part_versions ≡ 0

  -- If the bookkeeping of partitions and nodes is exact and partition `p` stands on node `n`, then the next
  -- version of `p` is accepted, the bookkeeping is exact again with `p` at that version and the other
  -- partitions where they were, and the node goes on exactly when the last of its partitions leaves its
  -- version.
  pub advance_part-Advanced :
      (t' : Tracker) × (went_on : Bool) × (advance_part part_to_node p (version + 1) t
        ≡ some (t', went_on))
      × Advanced t' went_on
  unfolding advance_part count_down
  advance_part-Advanced = elim (ℕ_discrete (get 0 n t.node_versions) version) [
    | no ne ↦ (
      moved,
      false,
      ground (arith, here, get-touch 0 n n t.node_versions),
      record {
        tracked = ahead-IsTracked ne;
        parts = refl;
        nodes = λ m. get-touch 0 m n t.node_versions;
        known = λ m h. ground (arith, has-touch 0 m n t.node_versions);
        behind = λ h. cc;
        others = λ _ e. absurd (ne e);
        last = λ h. cc;
      },
    )
    | yes at ↦ elim (ℕ_discrete (get 0 n t.node_count - 1) 0) [
      | no some_left ↦ (
        left_some,
        false,
        ground (arith, here, get-touch 0 n n t.node_versions),
        record {
          tracked = left_some-IsTracked at some_left;
          parts = refl;
          nodes = λ m. get-touch 0 m n t.node_versions;
          known = λ m h. ground (arith, has-touch 0 m n t.node_versions);
          behind = λ h. cc;
          others = λ _ _. ground (arith, moved-count n version, i.counted n);
          last = λ h. cc;
        },
      )
      | yes empty ↦ (
        next_version part_to_node n moved,
        true,
        ground (arith, here, get-touch 0 n n t.node_versions, i.reached p n here),
        record {
          tracked = next_version-IsTracked at empty;
          parts = unfold next_version in refl;
          nodes = λ m.
              unfold next_version in
              ground (
                arith,
                get-touch 0 m n t.node_versions,
                get-touch 0 n n t.node_versions,
                get-set 0 m n (get 0 n moved.node_versions + 1) moved.node_versions,
              );
          known = λ m h.
              unfold next_version in
              ground (
                arith,
                has-touch 0 m n t.node_versions,
                has-set m n (get 0 n moved.node_versions + 1) moved.node_versions,
              );
          behind = λ _. at;
          others = λ h. cc;
          last = λ _.
              unfold next_version in
              ground (arith, moved-count n version, i.counted n, i.reached p n here);
        },
      )
    ]
  ]
