-- ===== src/Worker/Commands.antt =====
-- core/scheduler/worker.cpp: what a node does on the commands of the scheduler. A partition is its content as bytes. How one is made
-- from a block or from distributed data (core/plan/function_store.cpp and the user's functions), its `ToBin` and
-- `FromBin`, and what a file holds are parameters; a task of the executor is run at once, and what it writes is an `Answer`.
use tangram.Base.{
  ℕ, Bool, true, false, not, ◌==◌, Option, some, none, List, [], ◌∷◌, ◌++◌, length, Map, set, check,
  ◌>>=◌, ◌>>◌,
}
use tangram.Plan.Spec.{Url}
use tangram.Io.Assigner.{FinishedBlock}
use tangram.Scheduler.Elem.{WorkerCommand}
use tangram.Scheduler.Process.Dispatch.{Message, Program}
use tangram.Worker.Elem.{Bytes}
use tangram.Worker.Partitions.{PartitionManager, get_part, insert_part}
pub mod Placed
pub mod Stored

pub record Worker : Type 0 where
  pub node_id : ℕ
  pub hostname : ℕ
  pub partitions : PartitionManager
  pub collection_map : Map (List ℕ)
  -- `program_`, when it is set.
  pub program : Option Program
  pub ready : Bool

-- What a command makes a worker do outside: `SendMsgToScheduler`, with a program or with a reply, a file that is written, the write function of a
-- collection on a partition, and the end of the process.
pub data Answer : Type 0 where
  reply : Message → Answer
  register : (node_id : ℕ) → Program → Answer
  write_file : Url → Bytes → Answer
  write_part : (collection_id : ℕ) → Bytes → Url → Answer
  exit : Answer

abbrev pub Result : Type 0
Result = Option (Worker × List Answer)

-- What the node gets from outside.
pub record Sources : Type 0 where
  pub part_of_block : (collection_id block : ℕ) → Bytes
  pub part_of_data : (collection_id part_id : ℕ) → Bytes
  pub file : Url → Bytes
  -- `ToBin` and `FromBin` of the partitions of a collection.
  pub to_bin : (collection_id : ℕ) → Bytes → Bytes
  pub from_bin : (collection_id : ℕ) → Bytes → Bytes

unfoldable pub set_program : Program → Worker → Worker
set_program p w = record w { program = some p }

-- The numbers of threads, which are sent along, are left out.
unfoldable pub register_program : Worker → Result
register_program w = do
  p ← w.program
  some (record w { ready = true }, Answer.register w.node_id p ∷ [])

unfoldable pub update_collection : ℕ → List ℕ → Worker → Result
update_collection c view w = some (
  record w { collection_map = set c view w.collection_map },
  Answer.reply (Message.update_collection_reply c w.node_id) ∷ [],
)

unfoldable pub load_block : Sources → (id block collection_id : ℕ) → Worker → Result
load_block src id block c w = some (
  record w { partitions = insert_part c id (src.part_of_block c block) w.partitions },
  Answer.reply (
        Message.block_finished
          (record { block_id = id; node_id = w.node_id; hostname = w.hostname; collection_id = c }))
      ∷ [],
)

unfoldable pub distribute_part : Sources → (part_id plan_id collection_id : ℕ) → Worker → Result
distribute_part src p plan c w = some (
  record w { partitions = insert_part c p (src.part_of_data c p) w.partitions },
  Answer.reply (Message.distribute_finished c p w.node_id plan) ∷ [],
)

unfoldable pub check_point : Sources → (collection_id part_id : ℕ) → Url → Worker → Result
check_point src c p url w = do
  part ← get_part c p w.partitions
  some (
    w,
    Answer.write_file url (src.to_bin c part) ∷ Answer.reply (Message.checkpoint_finished c) ∷ [],
  )

unfoldable pub load_check_point : Sources → (collection_id part_id : ℕ) → Url → Worker → Result
load_check_point src c p url w = do
  check (not (length (src.file url) == 0))
  some (
    record w { partitions = insert_part c p (src.from_bin c (src.file url)) w.partitions },
    Answer.reply (Message.load_checkpoint_finished c) ∷ [],
  )

unfoldable pub write_partition : (collection_id part_id : ℕ) → Url → Worker → Result
write_partition c p url w = do
  part ← get_part c p w.partitions
  some (w, Answer.write_part c part url ∷ Answer.reply (Message.write_partition_finished c) ∷ [])

unfoldable pub process_command : Sources → WorkerCommand → Worker → Result
unfolding update_collection load_block distribute_part check_point load_check_point write_partition
process_command src (WorkerCommand.update_collection c view) w = update_collection c view w
process_command src (WorkerCommand.load_checkpoint c p url) w = load_check_point src c p url w
process_command src (WorkerCommand.checkpoint c p url) w = check_point src c p url w
process_command src (WorkerCommand.write_partition c p url) w = write_partition c p url w
process_command src (WorkerCommand.distribute p plan c) w = distribute_part src p plan c w
process_command src (WorkerCommand.load_block id block c) w = load_block src id block c w
process_command src WorkerCommand.exit w = some (w, Answer.exit ∷ [])
