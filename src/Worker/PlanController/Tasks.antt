-- ===== src/Worker/PlanController/Tasks.antt =====
-- core/worker/plan_controller.cpp: a plan controller with the update and checkpoint tasks that it has started. A
-- task comes back as a message, at any time and in any order with the messages of others.
use tangram.Base.{
  ℕ, ◌+◌, ◌≤◌, ◌≡◌, refl, arith, ap, ◌==◌, if◌then◌else◌, Bool, true, false, ◌&&◌, ◌||◌, lookup,
  some, List, [], ◌∷◌, ◌++◌, Map, has, has-erase, get, member, pos, is_pos,
}
use tangram.Worker.Elem.{
  Effect, Message, run_join, run_checkpoint, run_map, run_fetch, reply_part_local, send, push,
  report, upstream_part_ids,
}
use tangram.Worker.PlanController.{PlanController, same_collection, update_fetch, all_of_part}
use tangram.Worker.Partitions.{PartitionManager}
use tangram.Worker.PlanController.Setup.{new_plan_controller}
use tangram.Worker.PlanController.IsValid.{IsValid, is_apart}
use tangram.Worker.PlanController.Leaves.{Ensures}
use tangram.Worker.PlanController.Handled.{Expected, handle-Leaves}
use tangram.Worker.PlanController.Marks.{updates_of, held, Marks, start_map-Marks}
use tangram.Worker.PlanController.Marked.{
  finish_map-Marks, receive_join-Marks, receive_fetch_request-Marks, finish_join-Marks,
  finish_checkpoint-Marks, finish_fetch-Marks,
}
use tangram.Worker.PlanController.Moved.{
  handle_control-Marks, migrate_dest-Marks, receive_flush_all-Marks,
}
use tangram.Worker.PlanController.MapOnly.{receive_map_only}
use tangram.Worker.PlanController.Process.{handle}

-- The message of each update or checkpoint task, as `run_join_task` and `run_checkpoint_task` make it.
unfoldable pub task_messages : List Effect → List Message
task_messages [] = []
task_messages (run_join j ∷ es) =
    Message.finish_join j.part_id j.version (upstream_part_ids j.upstream) ∷ task_messages es
task_messages (run_checkpoint p u ∷ es) = Message.finish_checkpoint p ∷ task_messages es
task_messages (_ ∷ es) = task_messages es

-- Whether the message is of a task of the partition.
unfoldable pub is_end : ℕ → Message → Bool
is_end p (Message.finish_join q v ups) = q == p
is_end p (Message.finish_checkpoint q) = q == p
is_end p _ = false

unfoldable pub is_task_message : Message → Bool
is_task_message (Message.finish_join q v ups) = true
is_task_message (Message.finish_checkpoint q) = true
is_task_message _ = false

unfoldable pub tasks_of : ℕ → List Message → ℕ
unfolding is_end
tasks_of p [] = 0
tasks_of p (m ∷ ms) = (if is_end p m then 1 else 0) + tasks_of p ms

pub record Worker : Type 0 where
  pub controller : PlanController
  pub tasks : List Message

-- A message of the scheduler or of another node, or the end of any of the tasks.
pub data Step (w : Worker) : Worker → Type 0 where
  receive :
      (m : Message) {s : PlanController} {es : List Effect}
      → is_task_message m ≡ false
      → Expected m w.controller
      → handle m w.controller ≡ some (s, es)
      → Step w (record { controller = s; tasks = w.tasks ++ task_messages es })
  come_back :
      (m : Message) (before after : List Message) {s : PlanController} {es : List Effect}
      → is_task_message m ≡ true
      → w.tasks ≡ before ++ m ∷ after
      → handle m w.controller ≡ some (s, es)
      → Step w (record { controller = s; tasks = (before ++ after) ++ task_messages es })

pub data Reach (w : Worker) : Worker → Type 0 where
  here : Reach w w
  next : {t u : Worker} → Reach w t → Step t u → Reach w u

-- Each update that is marked as running has its task, and only those.
pub record IsTasked (w : Worker) : Type 0 where
  pub valid : IsValid w.controller
  pub counted : (p : ℕ) → tasks_of p w.tasks ≡ held p w.controller.running_updates

tasks_of-append :
    (p : ℕ) (xs ys : List Message) → tasks_of p (xs ++ ys) ≡ tasks_of p xs + tasks_of p ys
unfolding tasks_of
tasks_of-append p [] ys = omega arith
tasks_of-append p (x ∷ xs) ys = omega (arith, tasks_of-append p xs ys)

tasks_of-task_messages :
    (p : ℕ) (es : List Effect) → tasks_of p (task_messages es) ≡ updates_of p es
unfolding tasks_of task_messages updates_of
tasks_of-task_messages p [] = refl
tasks_of-task_messages p (run_join j ∷ es) = omega (arith, tasks_of-task_messages p es)
tasks_of-task_messages p (run_checkpoint q u ∷ es) = omega (arith, tasks_of-task_messages p es)
tasks_of-task_messages p (report _ ∷ es) = tasks_of-task_messages p es
tasks_of-task_messages p (run_map _ _ _ ∷ es) = tasks_of-task_messages p es
tasks_of-task_messages p (run_fetch _ _ ∷ es) = tasks_of-task_messages p es
tasks_of-task_messages p (reply_part_local _ _ ∷ es) = tasks_of-task_messages p es
tasks_of-task_messages p (send _ _ ∷ es) = tasks_of-task_messages p es
tasks_of-task_messages p (push _ ∷ es) = tasks_of-task_messages p es

-- A message of others frees no partition.
receive-Marks :
    (m : Message) (s : PlanController)
    → is_task_message m ≡ false
    → Ensures (Marks s.running_updates) (handle m s)
unfolding handle is_task_message receive_map_only
receive-Marks (Message.control c) s h = handle_control-Marks c s
receive-Marks (Message.finish_map p flag) s h = finish_map-Marks p flag s
receive-Marks (Message.finish_join p v ups) s h = cc
receive-Marks (Message.receive_join j) s h = receive_join-Marks j s
receive-Marks (Message.fetch_request f) s h = receive_fetch_request-Marks f s
receive-Marks (Message.finish_fetch p) s h = finish_fetch-Marks p s
receive-Marks (Message.finish_checkpoint p) s h = cc
receive-Marks (Message.flush_all meta) s h = receive_flush_all-Marks meta s
receive-Marks (Message.migrate_dest meta d bytes) s h = migrate_dest-Marks meta d bytes s
receive-Marks (Message.receive_map_only meta version part) s h =
    start_map-Marks meta.partition_id version part s

-- The end of a task frees its partition alone, which was held.
come_back-Marks :
    (m : Message) (s : PlanController) {s' : PlanController} {es : List Effect} (p : ℕ)
    → is_task_message m ≡ true
    → ((q : ℕ) → is_end q m ≡ true → has q s.running_updates ≡ true)
    → handle m s ≡ some (s', es)
    → held p s'.running_updates + (if is_end p m then 1 else 0)
      ≡ held p s.running_updates + updates_of p es
unfolding handle is_task_message is_end held
come_back-Marks (Message.finish_join q v ups) s p h k e =
    ground (arith, finish_join-Marks q v ups s _ e p, has-erase p q s.running_updates, k p)
come_back-Marks (Message.finish_checkpoint q) s p h k e =
    ground (arith, finish_checkpoint-Marks q s _ e p, has-erase p q s.running_updates, k p)
come_back-Marks (Message.control c) s p h k e = cc
come_back-Marks (Message.finish_map q flag) s p h k e = cc
come_back-Marks (Message.receive_join j) s p h k e = cc
come_back-Marks (Message.fetch_request f) s p h k e = cc
come_back-Marks (Message.finish_fetch q) s p h k e = cc
come_back-Marks (Message.flush_all meta) s p h k e = cc
come_back-Marks (Message.migrate_dest meta d bytes) s p h k e = cc
come_back-Marks (Message.receive_map_only meta version part) s p h k e = cc

come_back-Expected :
    (m : Message) (s : PlanController)
    → is_task_message m ≡ true
    → ((q : ℕ) → is_end q m ≡ true → has q s.running_updates ≡ true)
    → Expected m s
unfolding is_task_message is_end
come_back-Expected (Message.finish_join q v ups) s h k = k q (ground arith)
come_back-Expected (Message.finish_checkpoint q) s h k = tt
come_back-Expected (Message.control c) s h k = cc
come_back-Expected (Message.finish_map q flag) s h k = tt
come_back-Expected (Message.receive_join j) s h k = tt
come_back-Expected (Message.fetch_request f) s h k = tt
come_back-Expected (Message.finish_fetch q) s h k = tt
come_back-Expected (Message.flush_all meta) s h k = tt
come_back-Expected (Message.migrate_dest meta d bytes) s h k = cc
come_back-Expected (Message.receive_map_only meta version part) s h k = cc

-- The partition of a task that has not come back is held.
task_held :
    (m : Message) (before after : List Message) (w : Worker) (q : ℕ)
    → is_end q m ≡ true
    → w.tasks ≡ before ++ m ∷ after
    → tasks_of q w.tasks ≡ held q w.controller.running_updates
    → has q w.controller.running_updates ≡ true
unfolding held tasks_of
task_held m before after w q b e c =
    ground (arith, tasks_of-append q before (m ∷ after), ap (tasks_of q) e)

Step-IsTasked : {w u : Worker} → Step w u → IsTasked w → IsTasked u
unfolding held tasks_of
Step-IsTasked {w} (receive m {s} {es} h x e) t = record {
  valid = handle-Leaves m w.controller x t.valid (s, es) e;
  counted = λ p. omega (
    arith,
    tasks_of-append p w.tasks (task_messages es),
    tasks_of-task_messages p es,
    receive-Marks m w.controller h (s, es) e p,
    t.counted p,
  );
}
Step-IsTasked {w} (come_back m before after {s} {es} h e0 e) t =
    let k = λ (q : ℕ) (b : is_end q m ≡ true). task_held m before after w q b e0 (t.counted q) in
    record {
      valid =
          handle-Leaves m w.controller (come_back-Expected m w.controller h k) t.valid (s, es) e;
      counted = λ p. ground (
        arith,
        tasks_of-append p before (m ∷ after),
        tasks_of-append p before after,
        tasks_of-append p (before ++ after) (task_messages es),
        tasks_of-task_messages p es,
        come_back-Marks m w.controller p h k e,
        ap (tasks_of p) e0,
        t.counted p,
      );
    }

pub Reach-IsTasked : {w u : Worker} → IsTasked w → Reach w u → IsTasked u
Reach-IsTasked t here = t
Reach-IsTasked t (next r st) = Step-IsTasked st (Reach-IsTasked t r)

-- A map or a fetch runs on the partition, of the collection that is updated.
unfoldable pub others_of : ℕ → PlanController → ℕ
others_of p s =
    if (same_collection s && member p s.running_maps)
      || (update_fetch s && is_pos (get (pos 0) p s.running_fetches))
    then 1
    else 0

new_plan_controller-IsTasked :
    (n : ℕ) (parts : PartitionManager) (collections : Map (List ℕ))
    → IsTasked (record { controller = new_plan_controller n parts collections; tasks = [] })
unfolding new_plan_controller tasks_of held is_apart has lookup get all_of_part
new_plan_controller-IsTasked n parts collections = record {
  valid = record {
    apart = λ p. refl;
    waiting = λ p. refl;
    pending = λ p v. refl;
    buffered = λ p. refl;
  };
  counted = λ p. refl;
}

-- From a new plan controller on, whatever messages come in whatever order, with each update or checkpoint task
-- coming back at any later time: of a partition at most one such task has not come back, and while one has not,
-- no map of the partition runs if maps read the updated collection, and no fetch if the updated collection is
-- the fetched one. A message is taken to be one that its sender sends: a map for another node is of a
-- collection that is not updated, what a migration brings waits for its partition, and a plan is set up while
-- no update runs.
pub reached-alone :
    (n : ℕ) (parts : PartitionManager) (collections : Map (List ℕ)) (w : Worker) (p : ℕ)
    → Reach (record { controller = new_plan_controller n parts collections; tasks = [] }) w
    → tasks_of p w.tasks + others_of p w.controller ≤ 1
unfolding held is_apart others_of
reached-alone n parts collections w p r =
    let t = Reach-IsTasked (new_plan_controller-IsTasked n parts collections) r in
    ground (arith, t.counted p, t.valid.apart p)
