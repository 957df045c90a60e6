-- ===== src/Worker/PlanController/Moves.antt =====
-- core/worker/plan_controller.cpp: the handlers of a migration keep updates alone on their partitions.
use tangram.Base.{
  ℕ, ◌+◌, ◌≡◌, refl, arith, ◌==◌, if◌then◌else◌, true, not, Option, some, none, List, [], ◌∷◌,
  check, lookup, set, get, has, get-set, get-erase, subst,
}
use tangram.Scheduler.Elem.{MigrateMeta, Move}
use tangram.Worker.Elem.{
  VersionedJoinMeta, join, fetch, FetchMeta, Bytes, MigrateData, report, Report,
}
use tangram.Worker.Partitions.{get_part, insert_part, get_num_local_parts}
use tangram.Worker.StreamStore.{StreamStore}
use tangram.Worker.PlanController.{PlanController, same_collection, all_of_part}
use tangram.Worker.PlanController.IsValid.{
  IsValid, is_apart, with_apart, push_waiting-IsValid, push_pending-IsValid, all_of_part-erase,
  all_of_part-set,
}
use tangram.Worker.PlanController.Leaves.{
  Leaves, some-Leaves, and_then-Leaves, send_one-Leaves, if-Leaves, bind-Leaves,
}
use tangram.Worker.PlanController.Exclusive.{
  try_run_some_maps-IsValid, try_run_waiting_joins-IsValid,
}
use tangram.Worker.PlanController.Migrate.{
  start_migrate, receive_flush_all, send_partition, leave_partition, stop_partition,
  serialize_pending, serialize_metas, unbuffer, keep_at, keep_fetch, enter_partition,
  take_partition, migrate_dest, waits_for_load,
}
use tangram.Worker.PlanController.MapOnly.{reassign_map, reassign_maps}

pub start_migrate-IsValid :
    (meta : MigrateMeta) (view : List ℕ) (s : PlanController)
    → IsValid s
    → Leaves IsValid (start_migrate meta view s)
unfolding start_migrate is_apart
start_migrate-IsValid meta view s x =
    let x1 =
      with_apart s (record s { collection_map = set meta.collection_id view s.collection_map }) x
        refl refl refl (λ q. x.apart q) in
    if-Leaves IsValid (meta.from_id == s.node_id) _ _
      (λ h. bind-Leaves IsValid (check (meta.collection_id == s.update_collection_id)) _ λ _ _.
        bind-Leaves IsValid (check (has meta.partition_id s.update_versions)) _ λ _ _.
          bind-Leaves IsValid (check (not (has meta.partition_id s.stop_updating))) _
            λ _ _. some-Leaves IsValid _ _ (with_apart s _ x refl refl refl λ q. x.apart q))
      (λ h. some-Leaves IsValid _ _ x1)

get_nil : (v : ℕ) → get {V = List VersionedJoinMeta} [] v [] ≡ []
unfolding get lookup
get_nil v = refl

leave_partition-IsValid :
    (p : ℕ) (store : StreamStore) (s : PlanController)
    → IsValid s
    → IsValid (leave_partition p store s)
unfolding leave_partition is_apart all_of_part
leave_partition-IsValid p store s x = record {
  apart = λ q. x.apart q;
  waiting = λ q. all_of_part-erase p q s.waiting_updates (x.waiting q);
  pending = λ q v. ground (arith, get-erase [] q p s.pending_updates, x.pending q v, get_nil v);
  buffered = λ q. x.buffered q;
}

send_partition-IsValid :
    (meta : MigrateMeta) (s : PlanController) → IsValid s → Leaves IsValid (send_partition meta s)
unfolding send_partition stop_partition is_apart
send_partition-IsValid meta s x =
    let p = meta.partition_id in
    bind-Leaves IsValid (check (has p s.stop_updating)) _ λ _ _.
      bind-Leaves IsValid (serialize_pending (get [] p s.pending_updates) s.stream_store) _
        λ pending _.
          bind-Leaves IsValid (serialize_metas (get [] p s.waiting_updates) pending.1) _
            λ waiting _.
              bind-Leaves IsValid (get_part meta.collection_id p s.partitions) _ λ part _.
                let s1 = stop_partition p s in
                let x1 : IsValid s1 = with_apart s s1 x refl refl refl (λ q. x.apart q) in
                let s2 = leave_partition p waiting.1 s1 in
                let x2 = leave_partition-IsValid p waiting.1 s1 x1 in
                some-Leaves IsValid _ _ (with_apart s2 _ x2 refl refl refl λ q. x2.apart q)

pub receive_flush_all-IsValid :
    (meta : MigrateMeta) (s : PlanController)
    → IsValid s
    → Leaves IsValid (receive_flush_all meta s)
unfolding receive_flush_all is_apart
receive_flush_all-IsValid meta s x =
    let n = get 0 meta.partition_id s.flush_all_count + 1 in
    bind-Leaves IsValid (check (meta.from_id == s.node_id)) _ λ _ _.
      if-Leaves IsValid (not (n == meta.num_nodes)) _ _
        (λ h. some-Leaves IsValid _ _ (with_apart s _ x refl refl refl λ q. x.apart q))
        (λ h.
          if-Leaves IsValid (has meta.partition_id s.running_updates) _ _
            (λ k. some-Leaves IsValid _ _ (with_apart s _ x refl refl refl λ q. x.apart q))
            (λ k. send_partition-IsValid meta _ (with_apart s _ x refl refl refl λ q. x.apart q)))

keep_at-IsValid :
    (p v : ℕ) (m : VersionedJoinMeta) (s : PlanController)
    → all_of_part p (m ∷ []) ≡ true
    → IsValid s
    → IsValid (keep_at p v m s)
unfolding keep_at
keep_at-IsValid p v m s h x =
    ground (arith, push_pending-IsValid p v m s h x, push_waiting-IsValid p (m ∷ []) s h x)

keep_fetch-IsValid :
    (f : FetchMeta) (o : Option ℕ) (s : PlanController) → IsValid s → IsValid (keep_fetch f o s)
unfolding keep_fetch all_of_part
keep_fetch-IsValid f none s x = push_waiting-IsValid f.part_id (fetch f ∷ []) s (ground arith) x
keep_fetch-IsValid f (some v) s x = keep_at-IsValid f.part_id v (fetch f) s (ground arith) x

unbuffer-IsValid :
    (ms : List VersionedJoinMeta) (s : PlanController) → IsValid s → IsValid (unbuffer ms s)
unfolding unbuffer all_of_part
unbuffer-IsValid [] s x = x
unbuffer-IsValid (join j ∷ ms) s x =
    unbuffer-IsValid ms _ (keep_at-IsValid j.part_id j.version (join j) s (ground arith) x)
unbuffer-IsValid (fetch f ∷ ms) s x = unbuffer-IsValid ms _ (keep_fetch-IsValid f f.version s x)

-- What a migration brings is of the partition.
pub record IsPlaced (p : ℕ) (d : MigrateData) : Type 0 where
  pub waiting : all_of_part p d.waiting_updates ≡ true
  pub pending : (v : ℕ) → all_of_part p (get [] v d.pending_updates) ≡ true

enter_partition-IsValid :
    (p : ℕ) (d : MigrateData) (s : PlanController)
    → IsPlaced p d
    → IsValid s
    → IsValid (enter_partition p d s)
unfolding enter_partition is_apart
enter_partition-IsValid p d s pl x = record {
  apart = λ q. x.apart q;
  waiting = λ q. all_of_part-set p q d.waiting_updates s.waiting_updates pl.waiting (x.waiting q);
  pending = λ q v.
      ground
        (arith, get-set [] q p d.pending_updates s.pending_updates, x.pending q v, pl.pending v);
  buffered = λ q. x.buffered q;
}

-- A partition that has come: with its buffered requests, and before anything of it runs.
take_partition-IsValid :
    (meta : MigrateMeta) (d : MigrateData) (bytes : Bytes) (s s' : PlanController)
    → IsPlaced meta.partition_id d
    → IsValid s
    → take_partition meta d bytes s ≡ some s'
    → IsValid s'
unfolding take_partition is_apart all_of_part
take_partition-IsValid meta d bytes s s' pl x e =
    let p = meta.partition_id in
    let s1 = unbuffer (get [] p s.buffered_requests) (enter_partition p d s) in
    let x1 =
      unbuffer-IsValid (get [] p s.buffered_requests) _ (enter_partition-IsValid p d s pl x) in
    let s2 = record s1 {
      buffered_requests = set p [] s1.buffered_requests;
      partitions = insert_part meta.collection_id p bytes s1.partitions;
    } in
    let x2 : IsValid s2 = record {
      apart = λ q. x1.apart q;
      waiting = λ q. x1.waiting q;
      pending = λ q v. x1.pending q v;
      buffered = λ q. all_of_part-set p q [] s1.buffered_requests refl (x1.buffered q);
    } in
    let e1 : s2 ≡ s' = ground arith in subst IsValid e1 x2

pub migrate_dest-IsValid :
    (meta : MigrateMeta) (d : MigrateData) (bytes : Bytes) (s : PlanController)
    → IsPlaced meta.partition_id d
    → IsValid s
    → Leaves IsValid (migrate_dest meta d bytes s)
unfolding migrate_dest
migrate_dest-IsValid meta d bytes s pl x =
    bind-Leaves IsValid (check (meta.to_id == s.node_id)) _ λ _ _.
      if-Leaves IsValid (waits_for_load meta.partition_id s) _ _ (λ h. some-Leaves IsValid s _ x)
        (λ h. bind-Leaves IsValid (take_partition meta d bytes s) _ λ s1 e.
          let x1 = take_partition-IsValid meta d bytes s s1 pl x e in
          and_then-Leaves IsValid _ _
            (and_then-Leaves IsValid _ _
              (if-Leaves IsValid (same_collection s1) _ _ (λ k. try_run_some_maps-IsValid s1 x1)
                (λ k. some-Leaves IsValid s1 [] x1))
              (try_run_waiting_joins-IsValid meta.partition_id))
            (send_one-Leaves IsValid (report (Report.finish_migrate meta.partition_id))))

reassign_maps-IsValid :
    (ms : List Move) (s s' : PlanController) → IsValid s → reassign_maps ms s ≡ some s' → IsValid s'
unfolding reassign_maps is_apart
reassign_maps-IsValid [] s s' x e = let e1 : s ≡ s' = cc in subst IsValid e1 x
reassign_maps-IsValid ((n, p, v) ∷ ms) s s' x e =
    let mine = n == s.node_id in
    reassign_maps-IsValid ms
      (record s {
        map_versions = if mine then set p v s.map_versions else s.map_versions;
        num_local_map_part = if mine then s.num_local_map_part + 1 else s.num_local_map_part;
      })
      s' (with_apart s _ x refl refl refl λ q. x.apart q) (ground arith)

pub reassign_map-IsValid :
    (ms : List Move) (s : PlanController) → IsValid s → Leaves IsValid (reassign_map ms s)
unfolding reassign_map
reassign_map-IsValid ms s x = bind-Leaves IsValid (reassign_maps ms s) _ λ s1 e.
    bind-Leaves IsValid
      (check (s1.num_local_map_part == get_num_local_parts s1.map_collection_id s1.partitions)) _
      λ _ _. try_run_some_maps-IsValid s1 (reassign_maps-IsValid ms s s1 x e)
