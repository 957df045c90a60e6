-- ===== src/Scheduler/CollectionManager/Replies.antt =====
-- The replies of the workers to one `Update` of core/scheduler/collection_manager.cpp.
use tangram.Base.{
  ℕ, suc, ◌+◌, ◌<◌, ◌≤◌, true, false, Option, none, some, List, [], ◌∷◌, ◌++◌, ◌≡◌, refl, arith,
  lookup, set, get, erase, insert, insert_new, length, member, if◌then◌else◌, ◌==◌, ◌>>=◌, get-set,
  lookup-erase, lookup-insert_new, length-insert, insert-IsAscending, IsAscending, member-insert,
  Bool-cases, inl, inr,
}
use tangram.Scheduler.Elem.{SchedulerElem, Callback, Effect, WorkerCommand, to_all_workers, call}
use tangram.Scheduler.CollectionManager.{CollectionManager, update, finish_update}

-- The nodes reply one after the other.
unfoldable pub finish_updates :
    SchedulerElem → ℕ → List ℕ → CollectionManager → Option (CollectionManager × List Effect)
unfolding finish_update
finish_updates elem cid [] m = some (m, [])
finish_updates elem cid (n ∷ ns) m = do
  one ← finish_update elem cid n m
  rest ← finish_updates elem cid ns one.0
  some (rest.0, one.1 ++ rest.1)

-- No node stands in the list twice.
abbrev pub Once : List ℕ → Type 0
Once [] = Unit
Once (n ∷ ns) = (member n ns ≡ false) × Once ns

-- The nodes of `replies` have replied, and those of `ns` have not.
record IsWaiting (cid : ℕ) (f : Callback) (ns : List ℕ) (m : CollectionManager) : Type 0 where
  registered : lookup cid m.callbacks ≡ some f
  ascending : IsAscending (get [] cid m.received_replies)
  fresh : (n : ℕ) → member n ns ≡ true → member n (get [] cid m.received_replies) ≡ false

module _ (elem : SchedulerElem) (cid : ℕ) (f : Callback) where
  replied :
      (n : ℕ) (ns : List ℕ) (m : CollectionManager)
      → IsWaiting cid f (n ∷ ns) m
      → length (insert n (get [] cid m.received_replies))
        ≡ suc (length (get [] cid m.received_replies))
  unfolding member
  replied n ns m w =
      ground (arith, length-insert n (get [] cid m.received_replies) w.ascending, w.fresh n)

  abbrev kept : ℕ → CollectionManager → CollectionManager
  kept n m = record m {
    received_replies = set cid (insert n (get [] cid m.received_replies)) m.received_replies;
  }

  kept-IsWaiting :
      (n : ℕ) (ns : List ℕ) (m : CollectionManager)
      → Once (n ∷ ns)
      → IsWaiting cid f (n ∷ ns) m
      → IsWaiting cid f ns (kept n m)
  unfolding member
  kept-IsWaiting n ns m o w =
      let r = get [] cid m.received_replies in
      let now = get-set [] cid cid (insert n r) m.received_replies in
      let same : get [] cid (set cid (insert n r) m.received_replies) ≡ insert n r =
        ground (arith, now) in
      record {
        registered = w.registered;
        ascending = rw same (insert-IsAscending n r w.ascending);
        fresh = λ k h. rw same (ground (arith, member-insert k n r, w.fresh k, o.0));
      }

  -- Each reply but the last is only noted.
  early :
      (n : ℕ) (m : CollectionManager)
      → suc (length (get [] cid m.received_replies)) < length elem.nodes
      → length (insert n (get [] cid m.received_replies))
        ≡ suc (length (get [] cid m.received_replies))
      → finish_update elem cid n m ≡ some (kept n m, [])
  unfolding finish_update
  early n m h e = ground arith

  finish_updates-waiting :
      (ns : List ℕ) (m : CollectionManager)
      → Once ns
      → IsWaiting cid f ns m
      → length (get [] cid m.received_replies) + length ns < length elem.nodes
      → (m' : CollectionManager) × (finish_updates elem cid ns m ≡ some (m', []))
  unfolding finish_updates
  finish_updates-waiting [] m o w h = (m, refl)
  finish_updates-waiting (n ∷ ns) m o w h =
      let e = replied n ns m w in
      let r = get [] cid m.received_replies in
      let (m', rest) =
        finish_updates-waiting ns (kept n m) o.1 (kept-IsWaiting n ns m o w)
          (ground (arith, get-set [] cid cid (insert n r) m.received_replies)) in
      (m', ground (arith, early n m (omega arith) e, rest))

  finish_updates-done :
      (ns : List ℕ) (m : CollectionManager)
      → Once ns
      → IsWaiting cid f ns m
      → 0 < length ns
      → length (get [] cid m.received_replies) + length ns ≡ length elem.nodes
      → (m' : CollectionManager) × (finish_updates elem cid ns m ≡ some (m', call f ∷ []))
        × (lookup cid m'.callbacks ≡ none)
  unfolding finish_updates finish_update
  finish_updates-done [] m o w pos h = absurd (omega arith)
  finish_updates-done (n ∷ []) m o w pos h = (
    record { received_replies = set cid [] m.received_replies; callbacks = erase cid m.callbacks },
    ground (arith, replied n [] m w, w.registered),
    ground (arith, lookup-erase cid cid m.callbacks),
  )
  finish_updates-done (n ∷ k ∷ ns) m o w pos h =
      let e = replied n (k ∷ ns) m w in
      let r = get [] cid m.received_replies in
      let (m', rest, gone) =
        finish_updates-done (k ∷ ns) (kept n m) o.1 (kept-IsWaiting n (k ∷ ns) m o w) (omega arith)
          (ground (arith, get-set [] cid cid (insert n r) m.received_replies)) in
      (m', ground (arith, early n m (omega arith) e, rest), gone)

-- If a placed collection has no update under way, and different nodes reply to Update one after the other, in
-- any order and no more than there are nodes, then no CHECK fails, and the closure is called, once, exactly if
-- all nodes have replied.
pub finish_updates-calls :
    (elem : SchedulerElem) (cid : ℕ) (f : Callback) (part_to_node : List ℕ) (m : CollectionManager)
    (ns : List ℕ)
    → lookup cid elem.collection_map ≡ some part_to_node
    → lookup cid m.callbacks ≡ none
    → Once ns
    → length ns ≤ length elem.nodes
    → 0 < length ns
    → (m1 m2 : CollectionManager) × (update elem cid f m
        ≡ some (m1, to_all_workers (WorkerCommand.update_collection cid part_to_node) ∷ []))
      × (finish_updates elem cid ns m1
          ≡ some (m2, if length ns == length elem.nodes then call f ∷ [] else []))
unfolding update member
finish_updates-calls elem cid f part_to_node m ns placed idle o le pos =
    let m1 : CollectionManager = record {
      received_replies = set cid [] m.received_replies;
      callbacks = insert_new cid f m.callbacks;
    } in
    let none_yet : get [] cid m1.received_replies ≡ [] =
      ground (arith, get-set [] cid cid [] m.received_replies) in
    let w : IsWaiting cid f ns m1 = record {
      registered = ground (arith, lookup-insert_new cid cid f m.callbacks idle);
      ascending = rw none_yet tt;
      fresh = λ n h. rw none_yet refl;
    } in
    elim (Bool-cases (length ns == length elem.nodes)) [
      | inl all ↦
          let (m2, e, gone) =
            finish_updates-done elem cid f ns m1 o w pos (rw none_yet (ground arith)) in
          (m1, m2, ground (arith, placed), rw all e)
      | inr some_left ↦
          let (m2, e) = finish_updates-waiting elem cid f ns m1 o w (rw none_yet (ground arith)) in
          (m1, m2, ground (arith, placed), rw some_left e)
    ]
