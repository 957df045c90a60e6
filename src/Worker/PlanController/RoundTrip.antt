-- ===== src/Worker/PlanController/RoundTrip.antt =====
-- core/worker/plan_controller.cpp: a partition that leaves one node and comes to another.
use tangram.Base.{
  ℕ, ◌≡◌, arith, if◌then◌else◌, not, ◌&&◌, some, [], ◌∷◌, ◌∙◌, ap, sym, >>=-eq-some, some_injective,
  subst, check, Map, get, has, set, get-set, lookup-set,
}
use tangram.Scheduler.Elem.{MigrateMeta}
use tangram.Worker.Elem.{Bytes, MigrateData, Message, send}
use tangram.Worker.Partitions.{get_part, insert_part, has_part}
use tangram.Worker.PlanController.{PlanController, Result, same_collection, all_of_part}
use tangram.Worker.PlanController.Payload.{
  carry_all, serialize_metas-carry, serialize_pending-carry,
}
use tangram.Worker.PlanController.Migrate.{
  serialize_metas, serialize_pending, send_partition, enter_partition, take_partition, unbuffer,
}

-- What the message of `send_partition` brings, read against the state that it left.
record Carried (p c : ℕ) (s : PlanController) (d : MigrateData) (part : Bytes) : Type 0 where
  map_version : d.map_version ≡ get 0 p s.map_versions
  update_version : d.update_version ≡ get 0 p s.update_versions
  update_tracker : d.update_tracker ≡ get [] p s.update_tracker
  waiting : carry_all s.stream_store (get [] p s.waiting_updates) ≡ some d.waiting_updates
  pending :
      (v : ℕ)
      → carry_all s.stream_store (get [] v (get [] p s.pending_updates))
        ≡ some (get [] v d.pending_updates)
  bytes : get_part c p s.partitions ≡ some part

sent_data :
    {a b : PlanController} {n : ℕ} {meta : MigrateMeta} {d d' : MigrateData} {x x' : Bytes}
    → ◌≡◌ {A = Result}
        (some (a, send n (Message.migrate_dest meta d x) ∷ []))
        (some (b, send n (Message.migrate_dest meta d' x') ∷ []))
    → d ≡ d'
sent_data e = cc

sent_bytes :
    {a b : PlanController} {n : ℕ} {meta : MigrateMeta} {d d' : MigrateData} {x x' : Bytes}
    → ◌≡◌ {A = Result}
        (some (a, send n (Message.migrate_dest meta d x) ∷ []))
        (some (b, send n (Message.migrate_dest meta d' x') ∷ []))
    → x ≡ x'
sent_bytes e = cc

send_partition-Carried :
    (meta : MigrateMeta) (s s' : PlanController) (d : MigrateData) (part : Bytes)
    → send_partition meta s ≡ some (s', send meta.to_id (Message.migrate_dest meta d part) ∷ [])
    → Carried meta.partition_id meta.collection_id s d part
unfolding send_partition
send_partition-Carried meta s s' d part e =
    let p = meta.partition_id in
    let (_, e0, e1) = >>=-eq-some (check (has p s.stop_updating)) _ e in
    let (pending, e2, e3) =
      >>=-eq-some (serialize_pending (get [] p s.pending_updates) s.stream_store) _ e1 in
    let (waiting, e4, e5) =
      >>=-eq-some (serialize_metas (get [] p s.waiting_updates) pending.1) _ e3 in
    let (bytes, e6, e7) = >>=-eq-some (get_part meta.collection_id p s.partitions) _ e5 in
    let (cp, wp) =
      serialize_pending-carry (get [] p s.pending_updates) pending.0 s.stream_store s.stream_store
        pending.1 e2 (λ k b h. h) in
    let (cw, ww) =
      serialize_metas-carry (get [] p s.waiting_updates) waiting.0 pending.1 s.stream_store
        waiting.1 e4 wp in
    let moved = sent_data e7 in
    let part_is = sent_bytes e7 in
    record {
      map_version = ap (λ (x : MigrateData). x.map_version) (sym moved);
      update_version = ap (λ (x : MigrateData). x.update_version) (sym moved);
      update_tracker = ap (λ (x : MigrateData). x.update_tracker) (sym moved);
      waiting = cw ∙ ap (λ (x : MigrateData). some x.waiting_updates) moved;
      pending = λ v. cp v ∙ ap (λ (x : MigrateData). some (get [] v x.pending_updates)) moved;
      bytes = e6 ∙ ap some part_is;
    }

-- Where the partition comes, with nothing buffered for it.
record Entered (p c : ℕ) (t t' : PlanController) (d : MigrateData) (part : Bytes) : Type 0 where
  map_version :
      (if same_collection t then get 0 p t'.map_versions else d.map_version) ≡ d.map_version
  update_version : get 0 p t'.update_versions ≡ d.update_version
  update_tracker : get [] p t'.update_tracker ≡ d.update_tracker
  waiting : get [] p t'.waiting_updates ≡ d.waiting_updates
  pending : get [] p t'.pending_updates ≡ d.pending_updates
  bytes : get_part c p t'.partitions ≡ some part

get_part-insert_part :
    (c p : ℕ) (b : Bytes) (m : Map (Map Bytes)) → get_part c p (insert_part c p b m) ≡ some b
unfolding get_part insert_part
get_part-insert_part c p b m =
    ground (arith, get-set [] c c (set p b (get [] c m)) m, lookup-set p p b (get [] c m))

enter_partition-Entered :
    (p c : ℕ) (d : MigrateData) (part : Bytes) (t : PlanController)
    → Entered p c t
        (record (unbuffer [] (enter_partition p d t)) {
          buffered_requests = set p [] (unbuffer [] (enter_partition p d t)).buffered_requests;
          partitions = insert_part c p part (unbuffer [] (enter_partition p d t)).partitions;
        })
        d
        part
unfolding unbuffer enter_partition
enter_partition-Entered p c d part t = record {
  map_version = ground (arith, get-set 0 p p d.map_version t.map_versions);
  update_version = ground (arith, get-set 0 p p d.update_version t.update_versions);
  update_tracker = ground (arith, get-set [] p p d.update_tracker t.update_tracker);
  waiting = ground (arith, get-set [] p p d.waiting_updates t.waiting_updates);
  pending = ground (arith, get-set [] p p d.pending_updates t.pending_updates);
  bytes = get_part-insert_part c p part t.partitions;
}

take_partition-Entered :
    (meta : MigrateMeta) (d : MigrateData) (part : Bytes) (t t' : PlanController)
    → take_partition meta d part t ≡ some t'
    → get [] meta.partition_id t.buffered_requests ≡ []
    → Entered meta.partition_id meta.collection_id t t' d part
unfolding take_partition
take_partition-Entered meta d part t t' e b =
    let p = meta.partition_id in
    let t1 = enter_partition p d t in
    let (_, _, e1) = >>=-eq-some (check (not (same_collection t && has p t.map_versions))) _ e in
    let (_, _, e2) = >>=-eq-some (check (not (has p t.update_versions))) _ e1 in
    let (_, _, e3) = >>=-eq-some (check (not (has p t.pending_updates))) _ e2 in
    let (_, _, e4) = >>=-eq-some (check (not (has p t.waiting_updates))) _ e3 in
    let (_, _, e5) = >>=-eq-some (check (not (has p t.update_tracker))) _ e4 in
    let (_, _, e6) = >>=-eq-some (check (all_of_part p (get [] p t.buffered_requests))) _ e5 in
    let (_, _, e7) = >>=-eq-some (check (not (has_part meta.collection_id p t.partitions))) _ e6 in
    subst (λ x. Entered p meta.collection_id t x d part) (some_injective e7)
      (rw b (enter_partition-Entered p meta.collection_id d part t))

-- If a node sends a partition off and another, with nothing buffered for it, takes what was sent, then the
-- partition has there the same update version, tracked upstream partitions and bytes, and the same map version
-- where maps read the updated collection. Its waiting and its pending requests are those of before in the same
-- order, each local one with the stream that the first node held for it.
pub migrate_round_trip :
    (meta : MigrateMeta) (d : MigrateData) (part : Bytes) (s s' t t' : PlanController)
    → send_partition meta s ≡ some (s', send meta.to_id (Message.migrate_dest meta d part) ∷ [])
    → take_partition meta d part t ≡ some t'
    → get [] meta.partition_id t.buffered_requests ≡ []
    → (get 0 meta.partition_id t'.update_versions ≡ get 0 meta.partition_id s.update_versions)
      × ((if same_collection t
            then get 0 meta.partition_id t'.map_versions
            else get 0 meta.partition_id s.map_versions)
          ≡ get 0 meta.partition_id s.map_versions)
      × (get [] meta.partition_id t'.update_tracker ≡ get [] meta.partition_id s.update_tracker)
      × (carry_all s.stream_store (get [] meta.partition_id s.waiting_updates)
          ≡ some (get [] meta.partition_id t'.waiting_updates))
      × ((v : ℕ)
          → carry_all s.stream_store (get [] v (get [] meta.partition_id s.pending_updates))
            ≡ some (get [] v (get [] meta.partition_id t'.pending_updates)))
      × (get_part meta.collection_id meta.partition_id t'.partitions
          ≡ get_part meta.collection_id meta.partition_id s.partitions)
migrate_round_trip meta d part s s' t t' e h b =
    let c = send_partition-Carried meta s s' d part e in
    let n = take_partition-Entered meta d part t t' h b in
    (
      n.update_version ∙ c.update_version,
      rw (← c.map_version) n.map_version,
      n.update_tracker ∙ c.update_tracker,
      rw n.waiting c.waiting,
      λ v. rw n.pending (c.pending v),
      n.bytes ∙ sym c.bytes,
    )
