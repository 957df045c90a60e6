-- ===== src/Scheduler/ControlManager/Barrier.antt =====
-- The barrier of core/scheduler/control_manager.cpp: HandleUpdateJoinVersion keeps the version of a plan at the least
-- version of its update partitions.
use tangram.Base.{
  ℕ, suc, ◌+◌, ◌/◌, ◌%◌, ◌≤◌, ◌<◌, Bool, true, false, not, ◌&&◌, ◌||◌, some, List, [], ◌∷◌, Map,
  ◌≡◌, ◌≢◌, refl, sym, ◌∙◌, inl, inr, lookup, lookup-set_self, get, set, has, get_elem?, Above,
  lookup-set, get-set, lookup-has, get-some, arith, lookup_below, ◌==◌, if◌then◌else◌, Bool-cases,
  ◌⊎◌, lt-length, get_elem?-some, has-some,
}
use native.Mathlib.Decide.{ℕ_discrete}
use Prim.Native.String.{String}
use tangram.Plan.Spec.{MapJoinSpec, Url}
use tangram.Scheduler.CollectionStatus.{CollectionStatus, add_cp}
use tangram.Scheduler.Elem.{ControllerMsg, Effect, ControlCommand, to_all_controllers}
use tangram.Scheduler.Tracker.{Tracker, count_parts, advance_part}
use tangram.Scheduler.Tracker.Minimum.{IsTracked, count_parts-some}
use tangram.Scheduler.Tracker.Advance.{Advanced, advance_part-Advanced}
use tangram.Scheduler.ControlManager.{
  Control, map_join_spec, part_to_node, add_checkpoint, update_version, all_passed,
  handle_update_join_version,
}

-- The plan's version is the least version of the update partitions.
pub record IsBarrier (nodes : List ℕ) (versions : ℕ) (t : Tracker) : Type 0 where
  pub tracked : IsTracked nodes t
  pub floor : (p : ℕ) → has p t.part_versions ≡ true → versions ≤ get 0 p t.part_versions
  pub reached : (p : ℕ) × (lookup p t.part_versions ≡ some versions)

all_passed-true :
    (versions : ℕ) (node_count node_versions : Map ℕ)
    → all_passed versions node_count node_versions ≡ true
    → (n v : ℕ) → lookup n node_versions ≡ some v
    → 0 < get 0 n node_count
    → v ≢ versions
unfolding all_passed lookup
all_passed-true versions node_count [] h n v e pos = cc
all_passed-true versions node_count ((m, w) ∷ rest) h n v e pos =
    ground (arith, all_passed-true versions node_count rest (ground arith) n v)

all_passed-false :
    (b versions : ℕ) (node_count node_versions : Map ℕ)
    → Above b node_versions
    → all_passed versions node_count node_versions ≡ false
    → (n : ℕ) × (lookup n node_versions ≡ some versions) × (0 < get 0 n node_count)
unfolding all_passed lookup
all_passed-false b versions node_count [] a h = cc
all_passed-false b versions node_count ((m, w) ∷ rest) a h =
    elim (Bool-cases (get 0 m node_count == 0 || not (w == versions))) [
      | inl passed ↦
          let (n, e, pos) = all_passed-false (suc m) versions node_count rest a.1 (ground arith) in
          (n, ground (arith, lookup_below n (suc m) rest), pos)
      | inr stuck ↦ (m, ground arith, ground arith)
    ]

module _ (nodes : List ℕ) (versions : ℕ) (t : Tracker) (b : IsBarrier nodes versions t) where
  -- No node with a partition is behind the plan.
  pub node_floor : (p n : ℕ) → get_elem? nodes p ≡ some n → versions ≤ get 0 n t.node_versions
  node_floor p n here =
      let i = b.tracked in
      let (q, there, e) =
        count_parts-some nodes n (get 0 n t.node_versions) t.part_versions i.sorted
          (omega (arith, i.counted n, i.reached p n here)) in
      omega (arith, b.floor q (has-some q t.part_versions e), get-some 0 q t.part_versions e)

  -- The node of a partition that holds the plan back is at the plan's version.
  slow_node :
      (q : ℕ)
      → lookup q t.part_versions ≡ some versions
      → (m : ℕ) × (get_elem? nodes q ≡ some m) × (get 0 m t.node_versions ≡ versions)
  slow_node q e =
      let i = b.tracked in
      let (m, there) = get_elem?-some nodes q (sym (i.parts q) ∙ has-some q t.part_versions e) in
      (
        m,
        there,
        omega (arith, i.low q m there, node_floor q m there, get-some 0 q t.part_versions e),
      )

  module _ (p n : ℕ) (here : get_elem? nodes p ≡ some n) (t' : Tracker) (went_on : Bool)
      (adv : Advanced nodes t p n here b.tracked t' went_on) where
    abbrev version : ℕ
    version = get 0 p t.part_versions

    -- The partition `p` was known, and is at its next version now.
    known : has p t.part_versions ≡ true
    known = b.tracked.parts p ∙ lt-length nodes p here

    now :
        (q : ℕ)
        → get 0 q t'.part_versions ≡ (if p == q then version + 1 else get 0 q t.part_versions)
    now q = rw (adv.parts) (get-set 0 q p (version + 1) t.part_versions)

    known_before : (q : ℕ) → has q t'.part_versions ≡ true → has q t.part_versions ≡ true
    known_before q h = b.tracked.parts q ∙ sym (adv.tracked.parts q) ∙ h

    floor_kept : (q : ℕ) → has q t'.part_versions ≡ true → versions ≤ get 0 q t'.part_versions
    floor_kept q h = ground (arith, now q, b.floor q (known_before q h), b.floor p known)

    -- A partition of node `m` holds the plan back.
    held : (m : ℕ) → 0 < count_parts nodes m versions t'.part_versions → IsBarrier nodes versions t'
    held m pos =
        let (q, there, e) =
          count_parts-some nodes m versions t'.part_versions adv.tracked.sorted pos in
        record { tracked = adv.tracked; floor = floor_kept; reached = (q, e) }

    stays : went_on ≡ false → IsBarrier nodes versions t'
    stays h =
        let (q, e) = b.reached in
        elim (ℕ_discrete p q) [
          | no other ↦ record {
            tracked = adv.tracked;
            floor = floor_kept;
            reached =
                (q, rw (adv.parts) (ground (arith, lookup-set q p (version + 1) t.part_versions)));
          }
          | yes same ↦
              let at : version ≡ versions = ground (arith, get-some 0 q t.part_versions e) in
              held n (
                rw (← at)
                  (adv.others h (omega (arith, b.tracked.low p n here, node_floor p n here))))
        ]

    waits : all_passed versions t'.node_count t'.node_versions ≡ false → IsBarrier nodes versions t'
    waits stuck =
        let (m, e, pos) =
          all_passed-false 0 versions t'.node_count t'.node_versions adv.tracked.nodes_sorted
            stuck in
        held m (ground (arith, adv.tracked.counted m, get-some 0 m t'.node_versions e))

    -- The nodes that hold a partition have left the plan's version.
    passed_by :
        all_passed versions t'.node_count t'.node_versions ≡ true
        → (q m : ℕ) → get_elem? nodes q ≡ some m
        → get 0 m t'.node_versions ≢ versions
    passed_by passed q m there =
        all_passed-true versions t'.node_count t'.node_versions passed m (get 0 m t'.node_versions)
          (lookup-has 0 m t'.node_versions (adv.tracked.placed q m there))
          (adv.tracked.reached q m there)

    rises :
        went_on ≡ true
        → all_passed versions t'.node_count t'.node_versions ≡ true
        → IsBarrier nodes (versions + 1) t'
    rises h passed = record {
      tracked = adv.tracked;
      floor = λ q k.
          let (m, there) = get_elem?-some nodes q (sym (adv.tracked.parts q) ∙ k) in
          ground (
            arith,
            adv.tracked.low q m there,
            passed_by passed q m there,
            node_floor q m there,
            adv.nodes m,
          );
      reached =
          (let (q, e) = b.reached in
            let (m, there, slow) = slow_node q e in
            let at : n ≡ m = ground (arith, passed_by passed q m there, adv.nodes m) in
            let behind = adv.behind h in
            (p, rw (adv.parts) (ground (arith, lookup-set_self p (version + 1) t.part_versions))));
    }

-- What the controllers are told when the plan's version has risen to `v`.
abbrev pub announcement : ℕ → ℕ → ℕ → List Effect
announcement plan_id expected v =
    to_all_controllers plan_id
      (if v == expected then ControlCommand.terminate_plan else ControlCommand.update_version v)
    ∷ []

-- A plan that checkpoints has a path for it.
abbrev pub HasPath : MapJoinSpec → Type 0
HasPath s = (s.checkpoint_interval ≡ 0) ⊎ ((path : String) × (s.checkpoint_path ≡ some path))

add_checkpoint-some :
    (s : MapJoinSpec) (versions : ℕ) (status : CollectionStatus)
    → HasPath s
    → (status' : CollectionStatus) × (add_checkpoint s versions status ≡ some status')
unfolding add_checkpoint
add_checkpoint-some s versions status (inl z) = (status, ground arith)
add_checkpoint-some s versions status (inr (path, e)) =
    elim (Bool-cases (not (s.checkpoint_interval == 0) && versions % s.checkpoint_interval == 0)) [
      | inl due ↦ (
        add_cp s.update_collection_id (Url.cp (Url.text path) (versions / s.checkpoint_interval))
            status,
        rw (due, e) refl,
      )
      | inr not_due ↦ (status, rw (not_due) refl)
    ]

-- The controllers are told of the plan's version exactly when it rises.
pub data News (plan_id : ℕ) (c c' : Control) (effects : List Effect) : Type 0 where
  silent : c'.plan.versions ≡ c.plan.versions → effects ≡ [] → News plan_id c c' effects
  risen :
      c'.plan.versions ≡ c.plan.versions + 1
      → effects ≡ announcement plan_id c.plan.expected_versions (c.plan.versions + 1)
      → News plan_id c c' effects

-- If a plan's version is the least version of its update partitions and the bookkeeping of nodes is exact, then
-- the report of partition `p` of its next version fails no CHECK, for a plan whose checkpoints have a path; the
-- plan's version is again the least version of the update partitions, the bookkeeping is exact again, and the
-- controllers are told of the version (or to end the plan, at the last version) exactly if it has risen.
pub handle_update_join_version-IsBarrier :
    (ctrl : ControllerMsg) (c : Control) (s : MapJoinSpec) (nodes : List ℕ) (n : ℕ)
    → map_join_spec c ≡ some s
    → HasPath s
    → part_to_node s.update_collection_id c ≡ some nodes
    → get_elem? nodes ctrl.part_id ≡ some n
    → ctrl.version ≡ get 0 ctrl.part_id c.plan.update.part_versions + 1
    → IsBarrier nodes c.plan.versions c.plan.update
    → (c' : Control) × (effects : List Effect) × (handle_update_join_version ctrl c
        ≡ some (c', effects))
      × IsBarrier nodes c'.plan.versions c'.plan.update
      × (c'.plan.update.part_versions ≡ set ctrl.part_id ctrl.version c.plan.update.part_versions)
      × News ctrl.plan_id c c' effects
unfolding handle_update_join_version update_version
handle_update_join_version-IsBarrier ctrl c s nodes n spec path placed here next b =
    let (t', went_on, e, adv) =
      advance_part-Advanced nodes c.plan.update ctrl.part_id n here b.tracked in
    let moved : advance_part nodes ctrl.part_id ctrl.version c.plan.update ≡ some (t', went_on) =
      rw next e in
    let parts : t'.part_versions ≡ set ctrl.part_id ctrl.version c.plan.update.part_versions =
      rw next adv.parts in
    let quiet : Control = record c { plan = record (c.plan) { update = t' } } in
    elim (Bool-cases went_on) [
      | inr still ↦ (
        quiet,
        [],
        ground (arith, spec, placed, moved),
        stays nodes c.plan.versions c.plan.update b ctrl.part_id n here t' went_on adv still,
        parts,
        silent refl refl,
      )
      | inl on ↦ elim (Bool-cases (all_passed c.plan.versions t'.node_count t'.node_versions)) [
        | inr stuck ↦ (
          quiet,
          [],
          ground (arith, spec, placed, moved),
          waits nodes c.plan.versions c.plan.update b ctrl.part_id n here t' went_on adv stuck,
          parts,
          silent refl refl,
        )
        | inl passed ↦
            let (status, added) = add_checkpoint-some s (c.plan.versions + 1) c.status path in
            (
              record c {
                status = status;
                plan = record (c.plan) { update = t'; versions = c.plan.versions + 1 };
              },
              announcement ctrl.plan_id c.plan.expected_versions (c.plan.versions + 1),
              ground (arith, spec, placed, moved, on, passed, added),
              rises nodes c.plan.versions c.plan.update b ctrl.part_id n here t' went_on adv on
                  passed,
              parts,
              risen refl refl,
            )
      ]
    ]
