-- ===== src/Lib.antt =====
-- swym is a software transactional memory. Cells (TCell) hold a value and a versioned lock; a
-- transaction reads and writes cells under an epoch that it pins, keeps its reads and writes in
-- logs, and commits by locking the written cells, validating the read ones, writing, and
-- publishing a new epoch. Old values are dropped only when no thread can still read them.
--
-- The parts, and the files that model them:
-- * Epoch (src/internal/epoch.rs): the bits of a word, QuiesceEpoch, EpochLock, ThreadEpoch and
--   EpochClock. A usize is a number below 2 ^ 64, and additions wrap around. An operation that
--   loads a word and then exchanges it takes both words, since another thread can write in
--   between.
-- * Bloom (src/internal/bloom.rs): the filter of one word and the hash map behind it. A key is
--   the address of a cell, the hash map an association list.
-- * WriteLog (src/internal/write_log.rs, src/internal/alloc/dyn_vec.rs): the entries in one
--   vector of words, with the filter and the hash map from cells to words of the vector.
--   WriteLog/Refine, Writes and Slow relate it to a map from cells to pending values;
--   WriteLog/Stale says what an entry that was given up leaves.
-- * Alloc (src/internal/alloc/fvec.rs, src/internal/alloc/dyn_vec.rs): the vectors that grow
--   only where they are asked to, and the values of different sizes in one vector of words. The
--   size that a vtable stands for is a parameter. Alloc/RoundTrip relates pushes and
--   iterations, and Alloc/Entries the list of entries of WriteLog to the words in which the
--   source keeps them.
-- * ReadLog (src/internal/read_log.rs) and Logs (src/internal/thread.rs): the reads, and the
--   logs together.
-- * Memory (src/tcell.rs, src/internal/tcell_erased.rs): the cells as a function from
--   addresses.
-- * Rw (src/rw.rs): reads and writes of a read-write transaction. Each load of an operation has
--   a memory of its own, so that other threads may write between any two.
-- * Tcell (src/tcell.rs, src/rw.rs, src/tx.rs): what a transaction calls on a cell: get, set,
--   publish, replace and the views, over the operations of Rw, with the sizes that their
--   assertions check and the errors that hand a value back.
-- * Commit (src/internal/commit.rs): the commit in software, in which the logs, the memory, the
--   clock and the garbage meet. Commit/Filter is about the reads that are validated,
--   Commit/Loops about the loops over the locks, Commit/Cells about single cells, and
--   Commit/Atomic about the whole.
-- * Commit/Hard (src/internal/commit.rs, swym-htm/src/lib.rs): the commit in hardware, the
--   bounded retries, and the choice between hardware and software; the processor is a
--   parameter, the codes of the attempts that it ends.
-- * Read (src/read.rs): the read of a read-only transaction.
-- * Protocol (src/internal/commit.rs): many threads that commit in software over the same cells
--   and clock, as a step relation with one step for each atomic operation of
--   src/internal/commit.rs and for the pin of src/internal/thread.rs. Protocol/Invariant says
--   what the locks and epochs are in every machine that can be reached, and Protocol/Snapshot
--   and Protocol/Reads what the reads of src/read.rs and src/rw.rs return in between.
-- * Parking (src/internal/parking.rs): what a thread does to the unpark bits before it sleeps,
--   and when it is woken.
-- * Starvation (src/internal/starvation.rs): the backoff of a thread that fails, and the lock
--   of the starving threads as a step relation with one step for each atomic operation.
--   Starvation/Queue has the scan of the sleeping threads, over an interface to the parking_lot
--   library with its documented behaviour; Starvation/Machine the steps; Starvation/Invariant,
--   Local, Release and Steps the invariant and what follows; Starvation/Handoff the hand-over;
--   Starvation/Backoff the number of failures. The filter and the callback run in one step,
--   since parking_lot holds the lock of the queue meanwhile, and while both bits are set no
--   other operation changes the state.
-- * Phoenix (src/internal/phoenix_tls.rs): the counted thread locals, which are made again
--   after the thread local that holds them is destroyed; one thread, with any sequence of its
--   operations.
-- * Thread (src/internal/thread.rs, src/thread_key.rs): a thread, and the loops that run a
--   transaction until it commits. A run is over a list of attempts, each with what other
--   threads and the clock make it meet; Thread/Closure has the user's closure as the calls that
--   it makes. Thread/Calls, Again and Runs compose the reads and writes of Rw, the commit of
--   Commit/Hard and the backoff of Starvation. Thread/Registered has the thread as it comes and
--   goes.
-- * Gc (src/internal/gc): Gc/Quiesce is the wait for the threads that are behind, with the
--   loads of each thread as a list; Gc/Garbage the bags of a thread, and Gc/SynchList the list
--   of threads.
-- * Rbtree (swym-rbtree/src/base.rs, swym-rbtree/src/lib.rs): the red-black tree that uses the
--   library. Rbtree/Store has the nodes, as functions of their addresses, and the accesses of a
--   transaction, each of which may conflict; Rbtree/Find, Rotate, Insert, Remove and Verify are
--   the operations of a tree, and Rbtree/Map those of a map. A function and its mirror image
--   are one, which takes the side. Rbtree/Shape says which tree hangs in a store;
--   Rbtree/Rotate/Turn, Relink, Laws and Whole what a rotation does to it; the files below
--   Rbtree/Insert go through the rounds of the repair, from the last rotation (Case4, Partial,
--   Inner) over one round (Round, Climb) and the loop (Loop) to the first round (First, Lifted,
--   FirstInner, Fixup); Rbtree/Verify/Measured and Laws are about the check; Rbtree/Map/View
--   has the finite map that a tree stands for, and Rbtree/Map/Refines the lookup and the
--   insertion on it.
-- * Shared has the list, option and Boolean helpers, and Tests has concrete runs.
--
-- Values are lists of words. Every loop is structural recursion on the list that it runs over,
-- so no fuel is needed, but for the iteration over a vector of words, whose fuel is the number
-- of words, since each turn takes one at least, and for the walks up and down a red-black tree,
-- whose fuel is the number of rounds, for which the depth of the tree is enough; the one loop
-- of the source that may run for ever, the wait for another thread, runs over the list of
-- loads, and its result is none while it is not over. Undefined behaviour of an unchecked
-- operation is a result of none where an operation of the model can reach it.
--
-- Not modelled: the memory orderings of the atomics (each operation is sequentially
-- consistent), the instructions of hardware transactional memory, the queue of parked threads,
-- the locks that freeze the list of threads (a new one is locked shared and released
-- exclusively, which the lock library leaves open), the formatting of values, pointer casts and
-- memory layout, statistics, and of the red-black tree the entries, the wrappers that begin a
-- transaction, and the freeing of the nodes; about its removal nothing is proved. The accesses
-- of the tree are to the transaction's own view: what a view is, is in Rw and Tcell. Of the
-- calls of a transaction's closure in Thread, those that privatize a value are left out. The
-- agreement of the write log with its filter and its hash map, which the results about logs
-- take for granted, can be lost by a transaction that goes on after a write has returned
-- SetError (src/internal/write_log.rs, `entry`); WriteLog/Stale is about such a log. The
-- definitions of Commit run with no other thread in between; Protocol interleaves the steps of
-- a commit, in an order that is at least as free as that of the loops, but leaves out the
-- commits in hardware and the changes of the unpark bits. A run in Thread has the shared state
-- that each attempt meets as an input, so what a sleep or a commit does to the cells is in its
-- result and not carried to the next attempt. The allocator is a parameter: the capacity that a
-- vector takes when it grows; the vector of sealed bags, made with room for 63, is taken to
-- have exactly that room. The epoch that a thread takes on while it collects is left out,
-- except when it leaves.
pub mod Shared
pub mod Epoch
pub mod Bloom
pub mod WriteLog
pub mod Gc
pub mod Memory
pub mod Alloc
pub mod ReadLog
pub mod Logs
pub mod Rw
pub mod Read
pub mod Tcell
pub mod Commit
pub mod Protocol
pub mod Parking
pub mod Starvation
pub mod Phoenix
pub mod Thread
pub mod Rbtree
pub mod Tests
