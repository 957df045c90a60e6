-- ===== src/Scheduler/CollectionStatus/Accounts.antt =====
-- What core/scheduler/collection_status.cpp knows of the running plans.
use tangram.Base.{
  has-false, ℕ, zero, suc, ◌+◌, ◌<◌, false, some, Map, ◌≡◌, ◌≢◌, refl, inl, inr, lookup, set, has,
  erase, arith, count, lookup-erase, Bool-cases, Option-cases, sum, IsSorted, sum-set_new,
  sum-erase_old, Above-set, Above-erase, sum_le,
}
use tangram.Plan.Spec.{ReadWriteVector}
use tangram.Scheduler.CollectionStatus.{
  CollectionStatus, no_status, take_reads, take_writes, add_plan, finish_plan,
}
use tangram.Scheduler.CollectionStatus.Counts.{
  tally, take_reads-tally, take_writes-tally, release_reads-tally, release_writes-tally,
}

-- How often the running plans read the collection, and how often they write it.
abbrev pub readers : ℕ → Map ReadWriteVector → ℕ
readers c plans = sum (λ _ p. count c p.0) plans

abbrev pub writers : ℕ → Map ReadWriteVector → ℕ
writers c plans = sum (λ _ p. count c p.1) plans

pub record IsAccounted (s : CollectionStatus) : Type 0 where
  pub sorted : IsSorted s.cur_plans
  pub reads : (c : ℕ) → lookup c s.read_ids ≡ tally (readers c s.cur_plans)
  pub writes : (c : ℕ) → lookup c s.write_ids ≡ tally (writers c s.cur_plans)
  -- Who writes a collection has it alone.
  pub alone :
      (c : ℕ)
      → 0 < writers c s.cur_plans
      → (writers c s.cur_plans ≡ 1) × (readers c s.cur_plans ≡ 0)

-- The counters are those of the running plans, and no collection has two writers.
pub record IsTallied (s : CollectionStatus) : Type 0 where
  pub sorted : IsSorted s.cur_plans
  pub reads : (c : ℕ) → lookup c s.read_ids ≡ tally (readers c s.cur_plans)
  pub writes : (c : ℕ) → lookup c s.write_ids ≡ tally (writers c s.cur_plans)
  pub single : (c : ℕ) → 0 < writers c s.cur_plans → writers c s.cur_plans ≡ 1

pub unread : (c n : ℕ) (m : Map ℕ) → lookup c m ≡ tally n → has c m ≡ false → n ≡ 0
unfolding has
unread c zero m e h = refl
unread c (suc n) m e h = ground arith

-- If the counters are those of the running plans and AddPlan accepts a plan that reads nothing that a running
-- plan writes, then the plan is recorded, the counters are again those of the running plans, and each
-- collection that is written has one writer and no reader.
pub add_plan-IsAccounted :
    (id : ℕ) (p : ReadWriteVector) (s s' : CollectionStatus)
    → IsAccounted s
    → ((c : ℕ) → 0 < count c p.0 → writers c s.cur_plans ≡ 0)
    → add_plan id p s ≡ some s'
    → IsAccounted s' × (s'.cur_plans ≡ set id p s.cur_plans)
unfolding add_plan
add_plan-IsAccounted id p s s' a unwritten e = elim (Bool-cases (has id s.cur_plans)) [
  | inl there ↦ absurd (ground arith)
  | inr new ↦ elim (Option-cases (take_writes p.1 (take_reads p.0 s.read_ids) s.write_ids)) [
    | inl failed ↦ absurd (ground arith)
    | inr (ws, taken) ↦
        let fresh = has-false id s.cur_plans new in
        let r =
          λ (c : ℕ). sum-set_new (λ _ (q : ReadWriteVector). count c q.0) id p s.cur_plans fresh in
        let w =
          λ (c : ℕ). sum-set_new (λ _ (q : ReadWriteVector). count c q.1) id p s.cur_plans fresh in
        let reads =
          λ (c : ℕ). take_reads-tally c p.0 (readers c s.cur_plans) s.read_ids (a.reads c) in
        let writes = λ (c : ℕ).
          take_writes-tally c p.1 (take_reads p.0 s.read_ids) s.write_ids ws (writers c s.cur_plans)
            taken (a.writes c) in
        let same : s' ≡ record s {
          cur_plans = set id p s.cur_plans;
          read_ids = take_reads p.0 s.read_ids;
          write_ids = ws;
        } =
          ground arith in
        rw same (
          record {
            sorted = Above-set 0 id p s.cur_plans (omega arith) a.sorted;
            reads = λ c. ground (arith, reads c, r c);
            writes = λ c. ground (arith, (writes c).0, w c);
            alone = λ c h. ground (
              arith,
              writes c,
              r c,
              w c,
              a.alone c,
              unwritten c,
              unread c (readers c s.cur_plans + count c p.0) (take_reads p.0 s.read_ids) (reads c),
            );
          },
          refl,
        )
  ]
]

-- If the counters are those of the running plans and no collection has two writers, then FinishPlan of a
-- running plan fails no CHECK, removes the plan, keeps the checkpoints, and leaves the counters those of the
-- plans that still run, of which no two write a collection. A collection may have readers beside its writer.
pub finish_plan-IsTallied :
    (id : ℕ) (p : ReadWriteVector) (s : CollectionStatus)
    → IsTallied s
    → lookup id s.cur_plans ≡ some p
    → (s' : CollectionStatus) × (finish_plan id s ≡ some s')
      × (s'.cur_plans ≡ erase id s.cur_plans)
      × (s'.last_cp ≡ s.last_cp)
      × IsTallied s'
unfolding finish_plan
finish_plan-IsTallied id p s a found =
    let r = λ (c : ℕ).
      sum-erase_old (λ _ (q : ReadWriteVector). count c q.0) 0 id p s.cur_plans a.sorted found in
    let w = λ (c : ℕ).
      sum-erase_old (λ _ (q : ReadWriteVector). count c q.1) 0 id p s.cur_plans a.sorted found in
    let (rs, released, reads) =
      release_reads-tally p.0 (λ c. readers c s.cur_plans) s.read_ids a.reads
        (λ c. omega (arith, r c)) in
    let (ws, freed, writes) =
      release_writes-tally p.1 (λ c. writers c s.cur_plans) s.write_ids a.writes
        (λ c. ground (arith, a.single c)) (λ c. omega (arith, w c)) in
    (
      record s { cur_plans = erase id s.cur_plans; read_ids = rs; write_ids = ws },
      ground (arith, found, released, freed),
      refl,
      refl,
      record {
        sorted = Above-erase 0 id s.cur_plans a.sorted;
        reads = λ c. ground (arith, reads c, r c);
        writes = λ c. ground (arith, writes c, w c);
        single = λ c h. ground (arith, a.single c, w c);
      },
    )

-- A collection that is written still has no reader.
pub finish_plan-IsAccounted :
    (id : ℕ) (p : ReadWriteVector) (s : CollectionStatus)
    → IsAccounted s
    → lookup id s.cur_plans ≡ some p
    → (s' : CollectionStatus) × (finish_plan id s ≡ some s')
      × (s'.cur_plans ≡ erase id s.cur_plans)
      × (s'.last_cp ≡ s.last_cp)
      × IsAccounted s'
finish_plan-IsAccounted id p s a found =
    let r = λ (c : ℕ).
      sum-erase_old (λ _ (q : ReadWriteVector). count c q.0) 0 id p s.cur_plans a.sorted found in
    let w = λ (c : ℕ).
      sum-erase_old (λ _ (q : ReadWriteVector). count c q.1) 0 id p s.cur_plans a.sorted found in
    let (s', done, left, cps, t) =
      finish_plan-IsTallied id p s
        (record {
          sorted = a.sorted;
          reads = a.reads;
          writes = a.writes;
          single = λ c h. (a.alone c h).0;
        })
        found in
    (
      s',
      done,
      left,
      cps,
      record {
        sorted = t.sorted;
        reads = t.reads;
        writes = t.writes;
        alone = λ c. rw left (λ h. ground (arith, a.alone c, r c, w c));
      },
    )

-- If the counters are those of the running plans, then of two running plans the one does not read or write what
-- the other writes.
pub running-exclusive :
    (s : CollectionStatus) (i j c : ℕ) (p q : ReadWriteVector)
    → IsAccounted s
    → lookup i s.cur_plans ≡ some p
    → lookup j s.cur_plans ≡ some q
    → i ≢ j
    → 0 < count c p.1
    → (count c q.0 ≡ 0) × (count c q.1 ≡ 0)
running-exclusive s i j c p q a hi hj ne h =
    let wi = sum-erase_old (λ _ (x : ReadWriteVector). count c x.1) 0 i p s.cur_plans a.sorted hi in
    let left : lookup j (erase i s.cur_plans) ≡ some q =
      ground (arith, lookup-erase j i s.cur_plans) in
    let wj = sum_le (λ _ (x : ReadWriteVector). count c x.1) j q (erase i s.cur_plans) left in
    let rj = sum_le (λ _ (x : ReadWriteVector). count c x.0) j q s.cur_plans hj in
    ground (arith, a.alone c)

pub no_status-IsAccounted : IsAccounted no_status
unfolding lookup sum
no_status-IsAccounted = record {
  sorted = tt;
  reads = λ c. refl;
  writes = λ c. refl;
  alone = λ c h. absurd (omega arith);
}
