-- ===== src/Lib.antt =====
-- The OpenCilk runtime system (cheetah): a model of parts of its core, with theorems about them.
--
-- Workers run frames, and a thief takes the oldest frame of a victim. Each worker keeps the views
-- of the reducers that its strand has touched in a hash table of its own; when strands join, their
-- tables are merged. A program that links the pedigree library also carries a frame of pedigree
-- data along with each spawned function.
--
-- Hypertable.antt and the files below it: runtime/local-hypertable.h and
-- runtime/local-hypertable.cpp. `Table` is `hyper_table` with its array of `Bucket`s as a function
-- from indices; the names of the operations are the source's, without the prefix `__cilkrts_`. A
-- pointer to a bucket is its index, and `nullptr` is `none`. Hypertable.antt has the queries and
-- the creation of arrays, Hypertable/Update.antt insertion, removal and rebuilding, and
-- Hypertable/Merge.antt the merging of two tables. The loops take fuel for as many rounds as the
-- array has buckets, after which `i` is back where it started. `insert_hyperobject` and `rebuild`
-- call each other, so insertion recurs on a depth, and an insertion at depth two returns, since
-- the insertions that a rebuild makes rebuild no more. Keys are 64-bit addresses, hashes 32-bit
-- words; the products in the tests of the load factor are taken modulo 2 ^ 32. `MAX_CAPACITY` is
-- (2 ^ 31 - 1) / 15, and `rebuild` gives `none` where its assertion on it fails. The other
-- assertions of the table are not modelled. Freed arrays are forgotten. `Views` stands for the
-- user's reduction and the data of a bucket that was never filled.
--
-- Pedigree.antt and the files below it: runtime/pedigree-internal.h, runtime/pedigree_lib.cpp and
-- runtime/pedigree_ext.cpp. A frame holds its pedigree as the list of ranks that its parent
-- pointers lead along; `init_dprng` gives the table that a seed determines, and an access outside
-- of its 4096 entries gives `none`.
--
-- FiberPool.antt and the files below it: runtime/fiber-pool.cpp. `FiberPool` is `cilk_fiber_pool`
-- with its array as the list of its fibers, the last one first. `Pools` is what one worker's
-- request sees: its pool, the global one, and all fibers ever created and destroyed. `Workers` has
-- the pools of all workers, and `Step` the requests of one after the other: the lock of the global
-- pool keeps batches apart, and the rest of a request touches only the worker's own pool. The
-- memory of a new fiber is the operating system's choice, an `Allocator`, which gives no memory in
-- use (`IsFresh`). A capacity of one is left out, as the reading of CILK_FIBER_POOL leaves it out.
--
-- InternalMalloc.antt and the files below it: runtime/internal-malloc.h,
-- runtime/internal-malloc-impl.h and runtime/internal-malloc.cpp. `ImGlobal` has the pool of
-- chunks and the global free lists, `ImDesc` one worker's free lists, `Arena` both for all workers
-- and the blocks in use; `Step` is one request of one worker, which the lock of the global lists
-- keeps whole. A block is its address, and a free list the list of its blocks. The system's choice
-- of a chunk is a `System`, which gives no memory twice (`IsFresh`). The loops over batches take
-- fuel, and as much as the free list is long is enough. The counts of blocks are plain numbers, as
-- fewer than 2 ^ 22 chunks have fewer than 2 ^ 32 blocks; the size of the list of chunks wraps.
-- Where an assertion of the test for leaks or of `cilk_internal_malloc_per_worker_terminate`
-- fails, the result is `none`.
--
-- Sleep.antt and the files below it: runtime/worker_sleep.cpp, runtime/efficiency.h and what they
-- use of runtime/global.h, runtime/global.cpp and `worker_scheduler` in runtime/scheduler.cpp.
-- `GlobalState` has the packed counts, the index of workers and the number of requests; `Crew`
-- adds what each worker counts as, and its `Step` is one critical section or one atomic addition.
-- `History` is `history_t`; one turn of a thief takes the values that it loads as arguments and
-- gives the list of its effects on the shared state. `try_to_disengage_thief` is `try_to_leave`
-- and `come_back`, before and after the wait.
--
-- Deque.antt and the files below it: the deque of frames of a worker, in
-- runtime/cilk2c_inlined.cpp and runtime/scheduler.cpp. `Deque` has the three shared pointers as
-- indices, the frames, and where the worker and the thief with the lock are; `Step` is one access
-- to the pointers by one of them, on sequentially consistent memory. A thief has the lock of the
-- closure from `locked` on, the worker in its exception handler.
--
-- Join.antt and the files below it: the part of runtime/scheduler.cpp that brings hypertables
-- together. `Parent` is a closure with its spawned children from left to right, and `Child` one of
-- them; each carries the tables of its worker too. `Step` is a steal, the return of a child, a
-- reduction or a sync, which the locks of parent and child keep whole. The model follows one
-- reducer: `Content` is what a table holds for it, the parts of its view from left to right.
-- Merging two tables puts the left one's parts first, as each round of `merge_two_hts` does with
-- the views of one key in Hypertable/Merge.antt. Children without a table and tables without a
-- view are told apart. Join/Links.antt has the sibling links of the children as maps from closures
-- to closures, and Join/Unlink.antt takes a child out of them. Join/Fibers.antt has the fibers of
-- a closure and its children, Join/Resumes.antt its `Move`s from one to the next; the pool gives a
-- fiber that none of them holds.
--
-- Closures.antt and the files below it: the closures of a parallel region, in runtime/closure.h,
-- runtime/busyclosure.h, runtime/scheduler.cpp and runtime/init.cpp. `Scheduler` has the closures,
-- the flags of the frames, the busy closure of each worker, and the closure that a worker holds in
-- `do_what_it_says`. What the code does under the locks of a busy closure and of closures is one
-- step, an `Event`; a step gives `none` where one of the assertions fails that are modelled: on
-- statuses, owners, busy closures, children, join counters and the marks of frames. Those on
-- hypertables, fibers, the pointers of the deque, locks and `CILK_FRAME_LAST`, and on the frame
-- that calls the stolen one, are not part of these steps, nor is that of
-- `provably_good_steal_maybe` on its worker's `provably_good_steal`. Closures/Returns.antt has the
-- ends of functions and syncs. Which frame a thief finds, and when functions sync and return, is
-- up to the deques and to compiled code, which `Enabled` says, with what the code asserts of the
-- frames' marks; the memory has `n` closures, fewer than 2 ^ 32, as the join counter is an
-- unsigned int, and gives closures that are not in use. `IsSound` is what holds between steps:
-- each counter counts the children and callees, a closure that waits has some, one that does not
-- is at one worker, parents of spawned children have stolen, unsynched frames, and no closure is
-- its own ancestor.
--
-- Base.antt and the files below it: shared names, Boolean tests, integers, arrays, results of
-- steps.
--
-- Not modelled: the frame functions that compiled code inlines, but for the deque (planned); the
-- reading of options and the set-up of workers (planned); jump buffers, exception objects,
-- threads, the spinning on locks and output, which are calls of the machine or the operating
-- system.
pub mod Base
pub mod Pedigree
pub mod Hypertable
pub mod FiberPool
pub mod InternalMalloc
pub mod Sleep
pub mod Join
pub mod Deque
pub mod Closures
