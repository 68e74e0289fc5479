-- ===== src/Lib.antt =====
-- VadaDB: a sharded key/value database whose shards share one fused backup.
--
-- A database (db/database.go) keeps n shards, each a Go map of uint64 keys and values. Beside them it
-- keeps one fused hash table (structures/kvhashtable.go): a list of nodes for each bucket, where a node
-- holds the XOR of at most one record of each shard and a bit for each shard that has one there. When
-- a shard crashes, its records are the XOR of the nodes and the other shards' records. With a
-- directory, each write is first appended to the log of its shard and to the fusion's log
-- (storage/wal.go), and `Open` replays the records that both logs have.
--
-- The files:
--   Common and its children, Result, Xor: lists, tests, integers and orders over native numbers; what a
--     Go call does (a value, an error or a panic); the laws of XOR.
--   CoreXor: core/xor.go; CoreXor/Slices is about the XOR of many sources and of all but one,
--     CoreXor/Fusion about XORSlices, slot by slot.
--   FusedArray: structures/array.go. FusedStack: structures/stack.go. FusedQueue: structures/queue.go.
--     Their children state what is fused (Invariant), and prove it of every operation.
--   FusedList: structures/linkedlist.go. A list is a bucket of the hash table whose keys are 0, and
--     Nodes, Changes, Passes and Invariant prove the list's operations from the bucket's. FusedList/Sets
--     is FusedSet, FusedList/Priorities is FusedPriorityQueue.
--   FusedListStack: structures/liststack.go, with node pointers as positions. Agreement compares it
--     with FusedStack, operation by operation; the others are about its own invariant.
--   Bytes, Wal: encoding/binary's words; storage/wal.go, the record codec, `Append` and `Replay`. A log
--     file is its bytes, and an outcome says what the file system makes of one write.
--   Snapshots: storage/snapshot.go, the files of a snapshot and of the checkpoint as bytes, and what the
--     file system makes of the steps that write them; Codec is about the snapshot, Checkpoint about the
--     replacement of the checkpoint file.
--   KvBucket: one bucket of structures/kvhashtable.go. The doubly linked list is the list of its nodes;
--     a node pointer is a position or a cursor. KvBucket/Slots says which records a bucket fuses, and
--     Merge, Locate, Change, Place and Insert prove that the code keeps to that.
--   KvMap: a Go map, as its entries in the order of their keys, with Go's lookup, write and delete.
--   KvTable: the whole fused table. KvTable/Fused states what a table fuses: the columns of the sources'
--     maps, bucket by bucket; Update is about Insert, Replace and Delete, and Pass, Survivors, Sorting,
--     Group and Recovery about Recover.
--   Database: New, Put, Get, Delete and Scan of db/database.go; Database/Failure: CrashShard and
--     RecoverShard; Database/Reports: Shards and StorageMetrics; Database/Opening: Open, apply and
--     rebuildFusion. Database/Models states what a database stands for, one map for each shard; Commits
--     and Writes are about Put and Delete, Gathering and Recovery about a crash and a recovery, Scanning
--     about Scan, Refinement about each method and Runs about sequences of calls, Ordering, Inserting
--     and Rebuilding about rebuildFusion. Replaying, Redoing, Files and Reopening are about Open without
--     a snapshot: which logs it accepts, and the maps it makes of them. Logging, Committing, Extending,
--     Keeping, Recording, Unchanged and Stepping follow the logs through the calls of a running database,
--     and Restarting and Durable put the two together.
--     Database/Snapshotting is Snapshot, with its child modules about the files that it leaves.
--   Tests: concrete runs.
--
-- A uint64 is a native number; XOR keeps to any width, and the sequence number and the metrics wrap
-- as in Go. A signed argument is an integer. A shard's map is the list of its entries in the order of
-- their keys: Go ranges over it in any order, but the code sorts what it reads there. The survivors of
-- a `Recover` are a list in any order. The mutexes make each method one step. `replay_loop` has the
-- length of the file as fuel, and each round reads 40 bytes; `shrink` has the length of the fusion, and
-- each round drops one slot.
--
-- Not modelled: `Close` of the database; the getters that copy a slice; the float in
-- StorageMetrics; the structures dequeue, listqueue and hashtable; the command line (cmd/vadadb) and
-- the simulation (sim, cmd/sim).
pub mod Common
pub mod Xor
pub mod Result
pub mod Bytes
pub mod CoreXor
pub mod FusedArray
pub mod FusedStack
pub mod Wal
pub mod KvBucket
pub mod KvMap
pub mod FusedList
pub mod FusedListStack
pub mod FusedQueue
pub mod KvTable
pub mod Snapshots
pub mod Database
mod Tests
