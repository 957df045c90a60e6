-- ===== src/Worker/Commands/Placed.antt =====
-- core/scheduler/worker.cpp with core/scheduler/collection_manager.cpp: one `Update` from end to end.
use tangram.Base.{
  ℕ, suc, ◌≡◌, ◌<◌, refl, arith, ◌==◌, if◌then◌else◌, true, Option, some, none, List, [], ◌∷◌, ◌++◌,
  length, lookup, lookup-set, set, ◌>>=◌, inl, inr, get_elem?, zero, ap, some_injective,
  Option-cases, ◌∙◌,
}
use tangram.Scheduler.Elem.{SchedulerElem, Callback, Effect, WorkerCommand, to_all_workers, call}
use tangram.Scheduler.Process.Dispatch.{Message}
use tangram.Scheduler.CollectionManager.{CollectionManager, update, finish_update}
use tangram.Scheduler.CollectionManager.Replies.{finish_updates, finish_updates-calls, Once}
use tangram.Worker.Commands.{Worker, Answer, Sources, update_collection, process_command}

abbrev pub ids : List Worker → List ℕ
ids [] = []
ids (w ∷ ws) = w.node_id ∷ ids ws

nonempty : (ws : List Worker) (k : ℕ) {w : Worker} → get_elem? ws k ≡ some w → 0 < length (ids ws)
nonempty [] k e = cc
nonempty (v ∷ ws) k e = omega arith

-- Every worker takes the command, one after the other.
unfoldable pub deliver : Sources → WorkerCommand → List Worker → Option (List Worker × List Answer)
deliver src cmd [] = some ([], [])
deliver src cmd (w ∷ ws) = do
  one ← process_command src cmd w
  rest ← deliver src cmd ws
  some (one.0 ∷ rest.0, one.1 ++ rest.1)

-- The scheduler takes the replies that are for its `finish_update`.
unfoldable pub answer_updates :
    SchedulerElem → List Answer → CollectionManager → Option (CollectionManager × List Effect)
answer_updates elem [] m = some (m, [])
answer_updates elem (Answer.reply (Message.update_collection_reply c n) ∷ more) m = do
  one ← finish_update elem c n m
  rest ← answer_updates elem more one.0
  some (rest.0, one.1 ++ rest.1)
answer_updates elem (a ∷ more) m = answer_updates elem more m

abbrev told : ℕ → List ℕ → List Worker → List Worker
told c view [] = []
told c view (w ∷ ws) = record w { collection_map = set c view w.collection_map } ∷ told c view ws

abbrev replies_of : ℕ → List Worker → List Answer
replies_of c [] = []
replies_of c (w ∷ ws) = Answer.reply (Message.update_collection_reply c w.node_id) ∷ replies_of c ws

deliver-told :
    (src : Sources) (c : ℕ) (view : List ℕ) (ws : List Worker)
    → deliver src (WorkerCommand.update_collection c view) ws
      ≡ some (told c view ws, replies_of c ws)
unfolding deliver process_command update_collection
deliver-told src c view [] = refl
deliver-told src c view (w ∷ ws) = rw (deliver-told src c view ws) refl

answer_updates-replies_of :
    (elem : SchedulerElem) (c : ℕ) (ws : List Worker) (m : CollectionManager)
    → answer_updates elem (replies_of c ws) m ≡ finish_updates elem c (ids ws) m
unfolding answer_updates finish_updates
answer_updates-replies_of elem c [] m = refl
answer_updates-replies_of elem c (w ∷ ws) m =
    elim (Option-cases (finish_update elem c w.node_id m)) [
      | inl e ↦ rw e refl
      | inr (r, e) ↦ rw (e, answer_updates-replies_of elem c ws r.0) refl
    ]

-- The worker at a place of the list knows the placement.
told-at :
    (c k : ℕ) (view : List ℕ) (ws : List Worker) {w : Worker}
    → get_elem? ws k ≡ some w
    → get_elem? (told c view ws) k
      ≡ some (record w { collection_map = set c view w.collection_map })
told-at c k view [] e = cc
told-at c zero view (v ∷ ws) e =
    ap (λ (x : Worker). some (record x { collection_map = set c view x.collection_map }))
      (some_injective e)
told-at c (suc k) view (v ∷ ws) e = told-at c k view ws e

-- If a placed collection has no update under way, and the command of Update reaches all nodes of the scheduler,
-- in any order, and their replies come back in that order: then no CHECK fails, the closure of Update is
-- called, once, every worker knows the placement, and its other collections and its partitions are as before.
pub update-deliver :
    (src : Sources) (elem : SchedulerElem) (c k j : ℕ) (f : Callback) (view : List ℕ)
    (m : CollectionManager) (ws : List Worker) (w : Worker)
    → lookup c elem.collection_map ≡ some view
    → lookup c m.callbacks ≡ none
    → Once (ids ws)
    → length (ids ws) ≡ length elem.nodes
    → get_elem? ws k ≡ some w
    → (m1 m2 : CollectionManager) × (told_workers : List Worker) × (answers : List Answer)
      × (v : Worker) × (update elem c f m
          ≡ some (m1, to_all_workers (WorkerCommand.update_collection c view) ∷ []))
      × (deliver src (WorkerCommand.update_collection c view) ws ≡ some (told_workers, answers))
      × (answer_updates elem answers m1 ≡ some (m2, call f ∷ []))
      × (get_elem? told_workers k ≡ some v)
      × (lookup j v.collection_map ≡ (if c == j then some view else lookup j w.collection_map))
      × (v.partitions ≡ w.partitions)
update-deliver src elem c k j f view m ws w placed idle o all at_k =
    let some_node : 0 < length (ids ws) = nonempty ws k at_k in
    let (m1, m2, e1, e2) =
      finish_updates-calls elem c f view m (ids ws) placed idle o (omega (arith, all)) some_node in
    let every : (length (ids ws) == length elem.nodes) ≡ true = ground (arith, all) in
    (
      m1,
      m2,
      told c view ws,
      replies_of c ws,
      record w { collection_map = set c view w.collection_map },
      e1,
      deliver-told src c view ws,
      answer_updates-replies_of elem c ws m1 ∙ rw every at e2,
      told-at c k view ws at_k,
      lookup-set j c view w.collection_map,
      refl,
    )
