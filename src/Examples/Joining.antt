-- ===== src/Examples/Joining.antt =====
-- Partitions with keys, combined messages (core/partition, core/map_output, core/plan/update_helper.hpp) and the commands
-- of workers (core/scheduler/worker.cpp): the theorems at concrete inputs.
use mathlib.Core.List.{Permᴰ}
use tangram.Base.{
  Map, none, false, ℕ, ◌+◌, ◌≡◌, refl, arith, some, List, [], ◌∷◌, get_elem?, has, lookup, get,
  member, ◌==◌, if◌then◌else◌,
}
use tangram.Plan.Spec.{Url}
use tangram.Scheduler.Elem.{SchedulerElem, Callback, WorkerCommand, to_all_workers, call}
use tangram.Scheduler.CollectionManager.{CollectionManager, update}
use tangram.Worker.Partitions.{get_part}
use tangram.Worker.MapOutput.{Buffer, combine_stream}
use tangram.Worker.MapOutput.Joined.{combine_stream-join}
use tangram.Worker.IndexedSeqPartition.{
  IndexedSeqPartition, empty_partition, join_part, find_or_create, sort_partition,
}
use tangram.Worker.IndexedSeqPartition.Messages.{IsIndexed, view, replay, join_part-replay}
use tangram.Worker.IndexedSeqPartition.Sorted.{find_or_create-has}
use tangram.Worker.Commands.{Worker, Answer, Sources}
use tangram.Worker.Commands.Placed.{deliver, answer_updates, update-deliver}
use tangram.Worker.Commands.Stored.{
  HasCodec, Held, Known, saved, loaded, run_commands, checkpoint_commands-load_commands,
}
use tangram.Worker.Elem.{Bytes}
use tangram.Scheduler.CheckpointManager.{checkpoint_commands}
use tangram.Scheduler.CheckpointLoader.{load_commands}

abbrev none_yet : ℕ → ℕ
none_yet key = 0

abbrev total : ℕ → ℕ → ℕ
total a b = a + b

abbrev messages : Buffer ℕ
messages = (4, 10) ∷ (1, 20) ∷ (4, 30) ∷ []

abbrev start : IndexedSeqPartition ℕ
start = empty_partition

start-IsIndexed : IsIndexed start
unfolding lookup
start-IsIndexed = record { plain = refl; indexed = λ k i e. cc }

join_part-replay_example :
    (q : IndexedSeqPartition ℕ) × (join_part none_yet total messages start ≡ some q)
    × IsIndexed q
    × (view q 4 ≡ replay none_yet total 4 messages (view start 4))
join_part-replay_example = join_part-replay none_yet total messages start 4 start-IsIndexed

-- A sort that moves the first message behind the second.
abbrev swap : Buffer ℕ → Buffer ℕ
swap [] = []
swap (x ∷ []) = x ∷ []
swap (x ∷ y ∷ xs) = y ∷ x ∷ xs

combine_stream-join_example :
    (q r : IndexedSeqPartition ℕ) × (join_part none_yet total
        (combine_stream swap (some total) messages)
        start
      ≡ some q)
    × (join_part none_yet total messages start ≡ some r)
    × (view q 4 ≡ view r 4)
combine_stream-join_example =
    combine_stream-join none_yet total total (λ v a b. omega arith) (λ v a b. omega arith) swap
      messages start 4 (Permᴰ.swap refl refl) start-IsIndexed

abbrev objects : List (ℕ × ℕ)
objects = (2, 50) ∷ (6, 60) ∷ []

abbrev held : IndexedSeqPartition ℕ
held = record { storage = objects; unsorted = []; sorted_size = 0 }

abbrev same : List (ℕ × ℕ) → List (ℕ × ℕ)
same xs = xs

-- Key 4 is not there, and the object of key 6 stands for it.
find_or_create-has_example :
    (i : ℕ) × (u : ℕ × ℕ) × (find_or_create none_yet 4 (sort_partition same held)
      ≡ (i, sort_partition same held))
    × (get_elem? (sort_partition same held).storage i ≡ some u)
    × ((u.0 == 4) ≡ has 4 objects)
find_or_create-has_example =
    find_or_create-has none_yet same held 4 1 (6, 60) (omega arith, (omega arith, tt)) refl
      (omega arith)

abbrev worker_1 : Worker
worker_1 = record {
  node_id = 1;
  hostname = 11;
  partitions = (8, (0, 7 ∷ []) ∷ (1, 8 ∷ []) ∷ []) ∷ [];
  collection_map = [];
  program = none;
  ready = false;
}

abbrev worker_2 : Worker
worker_2 = record {
  node_id = 2;
  hostname = 12;
  partitions = [];
  collection_map = [];
  program = none;
  ready = false;
}

abbrev elem : SchedulerElem
elem = record { nodes = 1 ∷ 2 ∷ []; collection_map = (8, 1 ∷ 2 ∷ []) ∷ [] }

abbrev no_updates : CollectionManager
no_updates = record { received_replies = []; callbacks = [] }

abbrev url : Url
url = Url.text "/tmp/c8"

-- A partition is written behind its collection.
abbrev behind : ℕ → Bytes → Bytes
behind c part = c ∷ part

abbrev rest_of : ℕ → Bytes → Bytes
rest_of c [] = []
rest_of c (x ∷ xs) = xs

-- Partition i of collection 8 is the number 7 + i.
abbrev files : Url → Bytes
files (Url.checkpoint_url u c i) = 8 ∷ (7 + i) ∷ []
files _ = []

abbrev sources : Sources
sources = record {
  part_of_block = λ c b. [];
  part_of_data = λ c p. [];
  file = files;
  to_bin = behind;
  from_bin = rest_of;
}

update-deliver_example :
    (m1 m2 : CollectionManager) × (told_workers : List Worker) × (answers : List Answer)
    × (v : Worker) × (update elem 8 (Callback.plan_done 3) no_updates
        ≡ some (m1, to_all_workers (WorkerCommand.update_collection 8 (1 ∷ 2 ∷ [])) ∷ []))
    × (deliver sources (WorkerCommand.update_collection 8 (1 ∷ 2 ∷ [])) (worker_2 ∷ worker_1 ∷ [])
        ≡ some (told_workers, answers))
    × (answer_updates elem answers m1 ≡ some (m2, call (Callback.plan_done 3) ∷ []))
    × (get_elem? told_workers 1 ≡ some v)
    × (lookup 8 v.collection_map
        ≡ (if 8 == 8 then some (1 ∷ 2 ∷ []) else lookup 8 worker_1.collection_map))
    × (v.partitions ≡ worker_1.partitions)
unfolding lookup member
update-deliver_example =
    update-deliver sources elem 8 1 8 (Callback.plan_done 3) (1 ∷ 2 ∷ []) no_updates
      (worker_2 ∷ worker_1 ∷ []) worker_1 refl refl (refl, (refl, tt)) refl refl

codec : HasCodec sources 8
codec = record { read_back = λ b. refl; written = λ b. ground arith }

-- Both partitions are on node 1; the first is loaded on node 2.
abbrev cluster : Map Worker
cluster = (1, worker_1) ∷ (2, worker_2) ∷ []

abbrev both : List Bytes
both = (7 ∷ []) ∷ (8 ∷ []) ∷ []

both-Held : Held 8 0 (1 ∷ 1 ∷ []) both cluster
unfolding lookup get_part get
both-Held = ((worker_1, refl, refl), ((worker_1, refl, refl), tt))

both-Known : Known (2 ∷ 1 ∷ []) cluster
unfolding lookup
both-Known = ((worker_2, refl), ((worker_1, refl), tt))

checkpoint_commands-load_commands_example :
    (vs' ws' : Map Worker) × (w' : Worker) × (run_commands sources
        (checkpoint_commands 8 0 (1 ∷ 1 ∷ []) url)
        cluster
      ≡ some (vs', saved sources 8 0 url both))
    × (lookup 1 vs' ≡ lookup 1 cluster)
    × (run_commands sources (load_commands 8 0 (2 ∷ 1 ∷ []) url) cluster
        ≡ some (ws', loaded 8 both))
    × Held 8 0 (2 ∷ 1 ∷ []) both ws'
    × (lookup 2 ws' ≡ some w')
    × (get_part 9 0 w'.partitions ≡ get_part 9 0 worker_2.partitions)
unfolding lookup
checkpoint_commands-load_commands_example =
    checkpoint_commands-load_commands sources 8 1 url (1 ∷ 1 ∷ []) (2 ∷ 1 ∷ []) both cluster cluster
      2 9 0 worker_2 codec both-Held (refl, (refl, tt)) both-Known refl refl refl
