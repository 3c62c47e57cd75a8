-- ===== src/Lib.antt =====
-- A model of io_engine, a single-threaded reactor for asynchronous I/O in C, and what holds of it.
--
-- Parts of the program and the files that model them (paths from the repository's root):
--   include/iotypes.h, src/ioec_strerr.c: Types. Poll flags are sets of flags: Flags.
--   src/cbuffer.c, src/cbuffer.h: Cbuffer, the queue of posted handlers. Cbuffer/Refine has the
--     invariant, Cbuffer/Queue the queue that a buffer stands for.
--   src/dynarray.c, src/dynarray.h: Dynarray, the arrays of pollfds and of both deadline heaps.
--   src/heaputils.c: Heap. The comparison and the exchange that C passes as function pointers are a
--     record HeapOps; Heap/Order states what the routines need of them.
--   src/rbnode.h, src/rbtree.c: Rbtree. Nodes stand at addresses in a store and refer to each other
--     by child and parent pointers, as in C; rb_place is a root or child pointer. A read through
--     NULL or a freed pointer is a fault. Rbtree/Shape says which tree the pointers make up,
--     Rbtree/Frame which changes keep it. Rbtree/Spine sees a tree from one of its subtrees, with
--     the way up to the root, Rbtree/Nodes the list of its nodes; Rbtree/Balance has the red-black
--     rules, Rbtree/Paint the changes of colour, Rbtree/Depth the height. Rbtree/Search,
--     Rbtree/Rotate, Rbtree/Grow and Rbtree/Descent (a new node), Rbtree/Fix (fix_insert),
--     Rbtree/Plant (rb_insert), Rbtree/Mend (fix_delete) and Rbtree/Unlink (rb_extract of a node
--     with one child at most) are about those parts.
--   src/iosvc_def.h and the iosvc_*.c files: Service, the state, and its children: Post
--     (iosvc_post, iosvc_post_delay), Reserve and Enqueue (iosvc_sched, iosvc_sched_timeout),
--     Dequeue (iosvc_dequeue, ioevt_cleanup_evt), Cancel (iosvc_cancel), Control (iosvc_create,
--     iosvc_stop, iosvc_reset), Destroy (iosvc_delete), Timers (delay_heap_entry.c,
--     async_heap_entry.c), and Run, Stop and Loop (io_service.c). Service/Slots sees a node as a map
--     from wait types to events, Service/Masks a pollfd's flags as the set of them;
--     Service/Refusals has the calls that fail, Service/Untimed and Service/Cancelled the removal
--     of an event with no deadline, Service/Run/Faults a call that reads through NULL.
--   src/async_net.c: AsyncNet.
--   src/io_semaphore.c: Semaphore. src/async_rdwr.c: AsyncRdwr. src/task_group.c: TaskGroup.
--   include/coroutine.h: Coroutine, the control flow that the macros expand to, with the client's
--     block as a graph of points. An await's statement does not enter the block again.
--   Base has the shared names, Tests the runs and examples.
--
-- How state and calls correspond. A function that changes the service takes it and returns the new
-- one; Service/Monad chains commands that may fault. Variables that clients pass by address are
-- fields of the service (statuses, remaining). Each allocation has a number, and the service's
-- allocator says what it answers, NULL for a refusal. A pointer to event data is a node and the
-- place in it. Callbacks, poll and the clock are parameters.
--
-- Numbers. Descriptors, times and counters are integers, sizes and addresses are natural numbers,
-- and no size, deadline or counter is taken to reach the bound of its C type, except the counter of
-- a task group, whose wrap-around is written out. Buffer offsets are counted in objects.
--
-- Fuel. Sifting up runs for the index, sifting down for the size of the array: each round lowers
-- the one or raises the other. Loops on the tree have more rounds than twice the pollfds, of which
-- there is one for each node. The event loop has the caller's fuel, since callbacks may go on for
-- ever; there `none` stands for a fault or for the end of the fuel, and so it does where a
-- coroutine's block has loops.
--
-- Not modelled: freeing of arrays, of the queue and of the service, and the programs in test/.
pub mod Base
pub mod Types
pub mod Flags
pub mod Cbuffer
pub mod Dynarray
pub mod Heap
pub mod Rbtree
pub mod Service
pub mod Semaphore
pub mod AsyncRdwr
pub mod AsyncNet
pub mod TaskGroup
pub mod Coroutine
pub mod Tests
