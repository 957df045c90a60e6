-- ===== src/Lib.antt =====
-- Tangram runs programs of plans over partitioned collections on a cluster. A program is a list of plans with a
-- graph of dependencies (core/plan). The scheduler (core/scheduler) hands out the plans that can run, keeps
-- account of the collections that the running plans use, and drives each iterative map-update plan by counting
-- versions of its partitions, with checkpoints, migration of partitions and recovery from the failure of nodes.
-- This library models that control logic: pure state in, new state and sent messages out. A failed `CHECK`,
-- which ends the process, is `none`.
--
-- Which file models which part:
--
-- - Plan/Dag.antt: core/plan/dag.hpp and dag.cpp, the graph of plans. `add_dag_node` is `Dag::AddDagNode`;
--   Plan/Dag/Visitor.antt has `DagVistor` with `get_front` and `finish`. The other files below Plan/Dag hold
--   the proofs about them.
-- - Stream.antt: base/sarray_binstream.hpp and sarray_binstream.cpp, values as bytes; Stream/Graphs.antt has
--   the graph of core/plan/dag.hpp as bytes.
-- - Plan/Context.antt: core/plan/context.hpp, the calls that build a program; Plan/Context/Built.antt has the
--   programs of any calls.
-- - Plan/Spec.antt: core/plan/spec_wrapper.hpp, the specifications and `GetReadWrite`.
-- - Scheduler/DagRunner.antt: core/scheduler/dag_runner.cpp, the sequential and the wide runner.
-- - Scheduler/CollectionStatus.antt: core/scheduler/collection_status.cpp, which plans read and write which
--   collection now.
-- - Scheduler/Elem.antt: messages, closures and ids of core/scheduler/control.hpp and scheduler_elem.cpp.
-- - Scheduler/Tracker.antt: the bookkeeping of versions that core/scheduler/control_manager.cpp writes out
--   twice, for the map and for the update partitions.
-- - Scheduler/ControlManager.antt: core/scheduler/control_manager.cpp, a function for each handler;
--   Scheduler/ControlManager/Migration.antt has the moves of partitions between nodes.
-- - Scheduler/CollectionManager.antt, Scheduler/CheckpointLoader.antt, Scheduler/CheckpointManager.antt,
--   Scheduler/WriteManager.antt, Scheduler/DistributeManager.antt, Scheduler/RecoverManager.antt,
--   Scheduler/BlockManager.antt: the managers of the same names of core/scheduler.
-- - Io/Assigner.antt: io/assigner.cpp, which block of a file is loaded where.
-- - Scheduler/Process.antt: core/scheduler/scheduler.cpp, how a plan is run and finished;
--   Scheduler/Process/Failures.antt has the recovery from the failure of nodes, and
--   Scheduler/Process/Dispatch.antt has `Process` and `RegisterProgram`.
-- - Worker/PlanController.antt: core/worker/plan_controller.cpp and plan_controller.hpp, the state of a plan on
--   one node. Below Worker/PlanController: Setup.antt has `Setup`, `StartPlan` and `UpdateVersion`; Run.antt
--   what runs next (`TryRunSomeMaps`, `TryRunWaitingJoins`); Maps.antt `FinishMap`; Joins.antt `ReceiveJoin`
--   and `FinishJoin`; Fetches.antt the fetch handlers; Migrate.antt and MapOnly.antt the moves of partitions;
--   Process.antt has the dispatch of core/worker/controller.cpp. The others hold the proofs.
-- - Worker/Elem.antt: the messages, tasks and ids of these; Worker/Partitions.antt:
--   core/partition/partition_manager.cpp; Worker/StreamStore.antt: core/map_output/map_output_stream_store.hpp.
-- - Worker/DelayedCombiner.antt: core/worker/delayed_combiner.cpp; Worker/MapOutput.antt:
--   core/map_output/map_output_stream.hpp and partitioned_map_output.hpp.
-- - Worker/Commands.antt: core/scheduler/worker.cpp, what a node does on the commands of the scheduler.
-- - Worker/IndexedSeqPartition.antt: core/partition/indexed_seq_partition.hpp, with the loops of
--   core/plan/update_helper.hpp over messages and of core/plan/collection.hpp over keys.
-- - Worker/RangeMapper.antt: core/index/range_key_to_part_mapper.hpp, which range a key is in;
--   Worker/RangeMapper/Partition.antt: core/partition/range_indexed_seq_partition.hpp.
-- - Worker/Fetcher.antt: core/cache/fetcher.cpp, the entry of one partition; Worker/Fetcher/Objects.antt has
--   its fetches of objects and Worker/Fetcher/Process.antt its messages.
-- - Base.antt and below: maps as ascending association lists, sums over maps, lists, Boolean tests.
--   Examples.antt and below: small runs.
--
-- A node, plan, collection or partition id and a version is a natural number: the code uses `int`, negative
-- only as a -1 for no version or no upstream partition, and the model does not bound it, nor the `int` indices
-- of its loops. `std::map` and `std::unordered_map` are association lists by ascending key; reading a missing
-- key with `[]` gives the default, written out where the entry it makes matters. Closures that one manager
-- hands to another are values of `Callback`, and a call is an `Effect` that the scheduler performs.
-- `run_rounds` takes fuel, one unit for each plan, which is shown to be enough.
--
-- The plan controller is modelled as compiled: `local_map_mode_` on, no background checkpoint, MIGRATE_JOIN and
-- CPULIMIT undefined. A partition and a stream are their contents, as lists of bytes, and `ToBin` and `FromBin`
-- of a partition are parameters where a worker writes and reads a file, the closures given to executors are
-- effects whose end comes back as a message, the counts of local partitions stop at 0, and a -1 is `none` or a
-- constructor of its own. The sort of the standard library is a parameter. A thread that waits on the condition
-- variable of the fetcher is the test that it waits for, tried again after each step.
--
-- Not modelled: threads, mailboxes and the network, the bytes of all messages but the graph of a program,
-- logging and times, HDFS access, the user's functions and their registration, and the examples. `TryMigrate`
-- is left out since nothing calls it, and so are the load-balancing variants under WITH_LB, which the build
-- does not define.
pub mod Base
pub mod Stream
pub mod Plan
pub mod Io
pub mod Scheduler
pub mod Worker
pub mod Examples
