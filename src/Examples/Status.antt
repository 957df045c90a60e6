-- ===== src/Examples/Status.antt =====
-- A plan that reads collection 7 and writes collection 8 (core/scheduler/collection_status.cpp).
use tangram.Base.{
  member, true, ℕ, ◌<◌, none, some, [], ◌∷◌, ◌≡◌, refl, arith, lookup, get, set, erase, has, count,
  sum,
}
use tangram.Plan.Dag.{empty_dag}
use tangram.Plan.Dag.Program.{WritesOnce, add_plans}
use tangram.Scheduler.DagRunner.{new_wide, wide_runnable}
use tangram.Scheduler.DagRunner.Hazard.{Accesses, Apart, wide_runnable-hazard}
use tangram.Plan.Spec.{ReadWriteVector}
use tangram.Scheduler.CollectionStatus.{
  CollectionStatus, no_status, add_plan, finish_plan, take_reads, take_writes,
}
use tangram.Scheduler.CollectionStatus.Accounts.{IsTallied, finish_plan-IsTallied}

abbrev reads_7 : ReadWriteVector
reads_7 = (7 ∷ [], 8 ∷ [])

abbrev reads_7_too : ReadWriteVector
reads_7_too = (7 ∷ [], 9 ∷ [])

abbrev busy : CollectionStatus
busy = record {
  cur_plans = (3, reads_7) ∷ [];
  read_ids = (7, 1) ∷ [];
  write_ids = (8, 1) ∷ [];
  last_cp = [];
}

abbrev busier : CollectionStatus
busier = record {
  cur_plans = (3, reads_7) ∷ (4, reads_7_too) ∷ [];
  read_ids = (7, 2) ∷ [];
  write_ids = (8, 1) ∷ (9, 1) ∷ [];
  last_cp = [];
}

busier_start : add_plan 4 reads_7_too busy ≡ some busier
unfolding add_plan take_reads take_writes lookup get set has
busier_start = refl

unwritten_7 :
    (c : ℕ) → 0 < count c (7 ∷ []) → sum (λ _ (p : ReadWriteVector). count c p.1) busy.cur_plans ≡ 0
unfolding sum count
unwritten_7 c h = ground arith

-- A plan that reads collection 8 is accepted while plan 3 writes it.
abbrev beside : CollectionStatus
beside = record {
  cur_plans = (3, reads_7) ∷ (4, (8 ∷ [], [])) ∷ [];
  read_ids = (7, 1) ∷ (8, 1) ∷ [];
  write_ids = (8, 1) ∷ [];
  last_cp = [];
}

beside_start : add_plan 4 (8 ∷ [], []) busy ≡ some beside
unfolding add_plan take_reads take_writes lookup get set has
beside_start = refl

beside-IsTallied : IsTallied beside
unfolding sum count lookup
beside-IsTallied = record {
  sorted = (omega arith, (omega arith, tt));
  reads = λ c. ground arith;
  writes = λ c. ground arith;
  single = λ c h. ground arith;
}

finish_plan-IsTallied_example :
    (s' : CollectionStatus) × (finish_plan 3 beside ≡ some s')
    × (s'.cur_plans ≡ erase 3 beside.cur_plans)
    × (s'.last_cp ≡ [])
    × IsTallied s'
unfolding lookup
finish_plan-IsTallied_example = finish_plan-IsTallied 3 reads_7 beside beside-IsTallied refl

-- Collection 7 is read by the first and written by the second.
abbrev first : Accesses
first = (7 ∷ [], 8 ∷ [])

abbrev second : Accesses
second = (9 ∷ [], 7 ∷ [])

abbrev third : Accesses
third = (7 ∷ 8 ∷ [], [])

reads-Apart : Apart (7 ∷ []) (8 ∷ [])
unfolding member
reads-Apart c m = ground arith

second-Apart : Apart (9 ∷ 7 ∷ []) (8 ∷ [])
unfolding member
second-Apart c m = ground arith

hazard-WritesOnce : WritesOnce (first ∷ second ∷ third ∷ [])
unfolding member
hazard-WritesOnce = ((refl, tt), ((refl, tt), (tt, tt)))

wide_runnable-hazard_example :
    let ret = (wide_runnable (new_wide (add_plans 0 (first ∷ second ∷ third ∷ []) empty_dag))).0 in
    (member 0 ret ≡ true)
    × (member 1 ret ≡ true)
    × ((s : CollectionStatus) × (add_plan 0 first no_status ≡ some s)
        × (add_plan 1 second s ≡ none))
unfolding member
wide_runnable-hazard_example =
    wide_runnable-hazard 7 first second (third ∷ []) hazard-WritesOnce reads-Apart second-Apart refl
      refl
