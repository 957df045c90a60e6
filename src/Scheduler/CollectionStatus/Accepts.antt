-- ===== src/Scheduler/CollectionStatus/Accepts.antt =====
-- Which plans `CollectionStatus::AddPlan` of core/scheduler/collection_status.cpp accepts.
use tangram.Base.{
  ℕ, zero, suc, ◌+◌, ◌<◌, false, some, List, [], ◌∷◌, Map, ◌≡◌, refl, inl, inr, ◌↔◌, lookup, set,
  get, has, arith, count, lookup-set, Bool-cases, Option-cases,
}
use tangram.Plan.Spec.{ReadWriteVector}
use tangram.Scheduler.CollectionStatus.{CollectionStatus, take_reads, take_writes, add_plan}
use tangram.Scheduler.CollectionStatus.Counts.{tally, take_reads-tally, take_writes-tally}
use tangram.Scheduler.CollectionStatus.Accounts.{IsAccounted, readers, writers, unread}

take_writes-some :
    (ws : List ℕ) (read_ids m : Map ℕ)
    → ((c : ℕ) → 0 < count c ws → (has c read_ids ≡ false) × (has c m ≡ false) × (count c ws ≡ 1))
    → (m' : Map ℕ) × (take_writes ws read_ids m ≡ some m')
unfolding take_writes count has
take_writes-some [] read_ids m h = (m, refl)
take_writes-some (w ∷ ws) read_ids m h =
    let (m', e) =
      take_writes-some ws read_ids (set w (get 0 w m + 1) m)
        (λ c pos. ground (arith, h c, h w, lookup-set c w (get 0 w m + 1) m)) in
    (m', ground (arith, e, h w))

-- The plan is new, and each collection that it writes is written once, and no running plan nor the
-- plan itself reads it, and no running plan writes it.
pub record IsWelcome (id : ℕ) (p : ReadWriteVector) (s : CollectionStatus) : Type 0 where
  pub new : has id s.cur_plans ≡ false
  pub once : (c : ℕ) → 0 < count c p.1 → count c p.1 ≡ 1
  pub unwritten : (c : ℕ) → 0 < count c p.1 → writers c s.cur_plans ≡ 0
  pub unread : (c : ℕ) → 0 < count c p.1 → readers c s.cur_plans + count c p.0 ≡ 0

add_plan-IsWelcome :
    (id : ℕ) (p : ReadWriteVector) (s s' : CollectionStatus)
    → IsAccounted s
    → add_plan id p s ≡ some s'
    → IsWelcome id p s
unfolding add_plan
add_plan-IsWelcome id p s s' a e = elim (Bool-cases (has id s.cur_plans)) [
  | inl there ↦ absurd (ground arith)
  | inr new ↦ elim (Option-cases (take_writes p.1 (take_reads p.0 s.read_ids) s.write_ids)) [
    | inl failed ↦ absurd (ground arith)
    | inr (ws, taken) ↦
        let reads =
          λ (c : ℕ). take_reads-tally c p.0 (readers c s.cur_plans) s.read_ids (a.reads c) in
        let writes = λ (c : ℕ).
          take_writes-tally c p.1 (take_reads p.0 s.read_ids) s.write_ids ws (writers c s.cur_plans)
            taken (a.writes c) in
        record {
          new = new;
          once = λ c h. ((writes c).1 h).1;
          unwritten = λ c h. ((writes c).1 h).0;
          unread = λ c h.
              unread c (readers c s.cur_plans + count c p.0) (take_reads p.0 s.read_ids) (reads c)
                ((writes c).1 h).2;
        }
  ]
]

absent : (c n : ℕ) (m : Map ℕ) → lookup c m ≡ tally n → n ≡ 0 → has c m ≡ false
unfolding has
absent c zero m e h = ground arith
absent c (suc n) m e h = absurd (omega arith)

IsWelcome-add_plan :
    (id : ℕ) (p : ReadWriteVector) (s : CollectionStatus)
    → IsAccounted s
    → IsWelcome id p s
    → (s' : CollectionStatus) × (add_plan id p s ≡ some s')
unfolding add_plan
IsWelcome-add_plan id p s a w =
    let read_ids = take_reads p.0 s.read_ids in
    let (ws, taken) = take_writes-some p.1 read_ids s.write_ids (λ c h. (
      absent c (readers c s.cur_plans + count c p.0) read_ids
          (take_reads-tally c p.0 (readers c s.cur_plans) s.read_ids (a.reads c)) (w.unread c h),
      absent c (writers c s.cur_plans) s.write_ids (a.writes c) (w.unwritten c h),
      w.once c h,
    )) in
    (
      record s { cur_plans = set id p s.cur_plans; read_ids = read_ids; write_ids = ws },
      ground (arith, w.new, taken),
    )

pub add_plan_iff :
    (id : ℕ) (p : ReadWriteVector) (s : CollectionStatus)
    → IsAccounted s
    → ((s' : CollectionStatus) × (add_plan id p s ≡ some s')) ↔ IsWelcome id p s
add_plan_iff id p s a = (λ r. add_plan-IsWelcome id p s r.0 a r.1, IsWelcome-add_plan id p s a)
