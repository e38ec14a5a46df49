-- ===== src/Lib.antt =====
-- graphflowdb: a model of the storage and transaction core of the Graphflow database, with the
-- theorems that make it correct.
--
-- The program and the files that model it:
-- * The write-ahead log (src/storage/wal). `Wal.Record` has the records of wal_record.h with their
--   factories and operator==. `Wal` has the log itself, wal.h and wal.cpp: the state is the list of
--   pages of the log's file, the buffer of the current header page, the offset in it, the index of
--   that page and the flag for a commit as the last record. Each public log function of WAL is a
--   constructor of `Log`, which `log` runs. WALIterator is `WalIterator` with `get_next_record`.
--   `Wal.Chain` says what a file of linked header pages holds, `Wal.Append` is about logging and
--   `Wal.Replay` about reading the log back.
-- * Transactions (src/transaction). `Transaction` has transaction.h and TransactionManager, one
--   function per public function; a call that waits for a mutex that another holds gives `blocked`.
--   `Transaction.Invariant` relates the manager to the transactions that clients hold,
--   `Transaction.History` has the histories of calls, `Transaction.Later` the calls
--   while new transactions are stopped, and `Transaction.Checkpoint` has the wait for
--   the readers and Database::commitAndCheckpointOrRollback (src/main/include/database.h), which uses the log of `Wal`.
-- * The statistics of a node table (src/storage/store/nodes_statistics_and_deleted_ids.h and .cpp):
--   the number of tuples and the deleted node offsets per morsel. `NodeStatistics` has the operations,
--   `NodeStatistics.Sets` the lemmas on ordered sets and maps, `NodeStatistics.Validity` what valid
--   statistics are, and `NodeStatistics.DeleteNode`, `NodeStatistics.AddNode` and
--   `NodeStatistics.Selector` are about one operation each; `NodeStatistics.Growth` is about addNode
--   past the flags of the morsels, and `NodeStatistics.Loading` about the
--   constructor and the list that is stored.
-- * The statistics of all node tables, src/storage/store/table_statistics.h and .cpp, with the class
--   NodesStatisticsAndDeletedIDs beside the one above: `TablesStatistics` keeps the version for
--   read-only transactions and the one for the write transaction, each call runs the operation of
--   `NodeStatistics` on its version. `TablesStatistics.Versions` is about what the versions show, and
--   `TablesStatistics.Calls` about single calls.
-- * The task scheduler (src/common/task_system and its headers). `TaskSystem` has Task and
--   TaskScheduler over a store of tasks; the worker threads are steps of the histories in
--   `TaskSystem.Counts`, where the run and the finalization of a task may throw, and
--   `TaskSystem.Queue` is about the queue.
-- * The boolean operators (src/function/boolean) on vectors, with the selection vector of
--   src/common/include/data_chunk/data_chunk_state.h: `BooleanOperations` has the operators with
--   nulls and the executor of binary operators, one loop for the cases of flat and unflat operands;
--   `BooleanOperations.Truth` is about the operators, `BooleanOperations.Execute` and
--   `BooleanOperations.Select` about the two entry points of the executor, the second as the filter
--   uses it (src/processor/physical_plan/operator/filter.cpp), and
--   `BooleanOperations.Unary` has the executor of the unary operator.
-- * The buffer pool (src/storage/buffer_manager/buffer_pool.cpp) and the file handles
--   (src/storage/buffer_manager/file_handle.cpp): `FileHandle` has the map of frames and the page
--   locks of a file, `BufferPool` the frames over a heap of file handles, with `BufferPool.Claim` for
--   the clock and the evictions, `BufferPool.Pin` for pins, dirty marks and unpins, and
--   `BufferPool.Remove` for removals and flushes. `BufferPool.Effects` says what a call may change,
--   `BufferPool.Invariant` what it keeps and `BufferPool.Contents` what a page holds, wherever it is;
--   `Eviction`, `Search`, `Pinning`, `Release`, `Unpinning`, `Removal` and `Flush` follow the calls,
--   `Availability`, `Clock` and `Returns` are about whether a frame is found, `Start` about a new
--   pool, and `BufferPool.Files` sets the pool against plain maps. `FileHandle.Sizes` is about the
--   vectors of a handle.
-- * The versioned file handle (src/storage/buffer_manager/versioned_file_handle.cpp):
--   `VersionedFileHandle` has the versions of the pages of a file in the log, by groups of pages,
--   `VersionedFileHandle.Pages` is about one call and `VersionedFileHandle.History` about any.
-- * The addresses of the in-memory hash index (src/storage/index/in_mem_hash_index.cpp): `HashIndex`
--   has the header and the splits, `HashIndex.Masks` what a mask keeps of a hash, and
--   `HashIndex.Addresses` the slots that the keys have. The entries of the slots are not modelled.
-- * `Base` has the names, tests and lemmas on lists that all share.
--
-- How code is read: numbers are natural numbers, with the wrap-around of 64-bit words written out
-- where the code can meet it; an exception is a constructor of the result type of the component,
-- and `undefined` stands for a read behind the end of a vector or through an iterator that is
-- not valid.
-- A mutex held during a whole function makes the function one step. Maps are association lists,
-- buffers and the store of tasks are functions, and a null pointer is `none`.
--
-- The calls of the buffer pool run one at a time. A page lock is state, because an exception can
-- leave it held; the spin lock inside a frame is always free when a call tries it. Two cases,
-- both of pages past the end of their file, are left out: tryEvict leaves a frame's spin lock held
-- when the lock of its page is past the vector of locks, and a null page lock, which the code would
-- follow, reads as a free one.
--
-- Bounds and fuel: `record_size` is sizeof(WALRecord), a parameter, which must be positive and fit a
-- header page of 4096 bytes behind its prefix of 12. The file of the log stays below 2 ^ 32 - 1 pages,
-- the index that the code uses as "none". The loop over the log takes fuel for the number of records,
-- the wait of the transaction manager for more rounds than its timeout has sleeps; the theorems
-- say that this much is enough. In the histories of transactions the ids stay below INT64_MAX. The
-- clock of the buffer pool goes round its frames twice, and a pool has fewer than 2 ^ 31 frames.
-- The primary slots of the hash index stay below 2 ^ 30, since its masks are computed from an int.
--
-- Not modelled: the bytes of a log record, which are written and read as a whole; the choice between
-- the pools of the buffer manager, the interleaving of threads inside its calls, and its errors from
-- the operating system; the replay of the log on the other files of a database, which changes neither the
-- log's state nor that of the transaction manager before the log is cleared; the check of edges of a
-- node, which is a parameter; the files of the table statistics and the statistics of the rel tables;
-- the waiting of scheduleTaskAndWaitOrError, whose steps are modelled; what the lists log when a
-- transaction is prepared, which is a parameter; the query compiler and the query processor.
pub mod Base
pub mod BooleanOperations
pub mod BufferPool
pub mod FileHandle
pub mod HashIndex
pub mod NodeStatistics
pub mod TablesStatistics
pub mod TaskSystem
pub mod Transaction
pub mod VersionedFileHandle
pub mod Wal
