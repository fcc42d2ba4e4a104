-- ===== src/Lib.antt =====
-- AstraStorage keeps files as chunks on storage nodes. The metadata service (MDS) holds the
-- directory tree, the files, their chunks with the replicas of each, the upload sessions, the
-- nodes and the plans for new replicas. This library models the core of the MDS: the in-memory
-- repository that keeps the six tables, the service whose use cases are transactions on it, the
-- allocator that picks nodes, and the planners that replace the replicas of failed nodes, move
-- replicas off full nodes, and give up the old replica at the end.
--
-- Which file models which part:
--   Base         what the modules share: tests on numbers, Go's int64 as integers (Base/Int), maps
--                as association lists (Base/Map), strings (Base/Text), slices, sort.Slice and
--                applyListWindow (Base/Slice)
--   Metadata     the records of internal/mds/metadata
--   Store        internal/mds/store. State is memory.go, Requests is store.go, Select the finders
--                and helpers of memory_helpers.go; Inode, File, Chunk, Upload, Node and Plan are
--                memory_inode.go to memory_plan.go, with one function for each operation, named
--                alike (createInode is create_inode); Tx is memory_tx.go
--   Allocator    internal/mds/allocator.go
--   Service      internal/mds/service*.go, one function for each use case. Body has what they
--                share: a callback of InTx is a function on the tables (Body A), written with do; Create is
--                service_directory.go and service_file.go, Nodes is service_node.go, Upload with
--                Upload/Steps, Upload/Finish and Upload/Failure is service_upload.go, Mutation with
--                Paths is service_mutation.go, Read is service_read.go, Cache with Cache/Kinds is
--                read_cache.go with internal/platform/redis/cache; Invariant has sequences of
--                use cases
--   Coordinator  internal/mds/coordinator: placement and withdrawal of a replica; Failover, Rebalance
--                and Cleanup are failover.go, rebalance.go and cleanup.go; Supervisor is
--                supervisor.go, which starts and stops their loops with leadership; Repairer
--                is repairer.go: the back-off, with Repairer/Source and Repairer/Copy the copy of a
--                chunk, and with Repairer/Loop the run over all chunks
--
-- How the parts interact: a use case checks its request, runs its callback in one transaction of
-- the repository, and if that succeeds drops the read models that it names from the read cache;
-- the answer has the tables, the result and those read models. A planner reads files, nodes,
-- chunks and plans from the repository, asks the allocator for a node, and writes the plan and the
-- pending replica in one transaction. If the queue then refuses the task, it withdraws both in
-- another transaction. The repairer asks a node that has the chunk to copy it to the nodes whose
-- replica is pending, and its state lists the copies that went out to nodes and the queue. When the
-- copy is ready, the cleanup removes the source's replica and ends the plan in one transaction.
--
-- How state and operations correspond: an operation takes the tables and returns the tables that
-- it leaves behind with its result, since a failed operation can have written something. Errors
-- are told apart by kind, as errors.Is does; messages are left out. A pointer is an option, a Go
-- map an association list whose order stands for the order of a range loop, which no theorem
-- fixes. A nil map is an empty one, and a patch that tells the two apart has an option. Deep
-- copies are the value. Types over string are String. An int64 or int is an integer, and sums and
-- products are reduced to 64 bits where the code computes them. A time is a number of nanoseconds
-- since the year 1. Texts are compared by code points, which orders valid UTF-8 as Go orders
-- bytes.
--
-- Loops: range loops are recursions on the list. The loop of isDescendant follows parents and can
-- run for ever on a cyclic table; it has fuel for one round more than there are inodes, and
-- `diverged` is the result when that is used up. The recursive deletion of a directory has the
-- same fuel. A run-time panic is the result `panicked`.
--
-- Concurrency: the mutex of the repository makes an operation one step. Transactions interleave
-- call by call in Store/Tx. A planner's calls are taken one after the other, with no other caller
-- between. The goroutines of the supervisor are steps of a relation on its state and the phase of
-- each start; its caller makes one call after the other, as the elector does.
--
-- Not modelled: the PostgreSQL repository, Redis, etcd and RabbitMQ (servers behind third-party
-- packages; the queue and the HTTP client of the cleanup and the repair are parameters), HTTP and
-- gRPC, configuration, metrics and process start-up; the cache warm-up, the gateway and the data
-- node; and the usage ratio of the rebalance, a floating-point number, whose tests are parameters.
pub mod Allocator
pub mod Base
pub mod Coordinator
pub mod Metadata
pub mod Service
pub mod Store
