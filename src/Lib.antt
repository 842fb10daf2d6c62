-- ===== src/Lib.antt =====
-- artorias: a Lua application server in C. This library models its memory allocators, its red-black
-- tree, its threads and the pools they wait in, the loop of a worker, the master that deals connections
-- out to the workers, two simpler servers, and the sockets, buffers and counters that Lua code uses.
--
-- The parts and the files that model them (paths from the repository's root):
--   * Prelude: the names that the modules share; Boolean tests, lists over the native numbers,
--     fallible updates, checks of finite tables and the bits of a number.
--   * BitScan: `__bits_cl0_u8` … `__bits_ct0_u64` of c/src/mem_slot.c. BitScan/Byte checks the byte
--     versions on every byte; BitScan/Wide and BitScan/Trailing treat the wider ones step by step.
--   * MemSlot: `as_mem_slot_t` of c/src/mem_slot.h with `slot_new`, `slot_alloc`, `slot_free` and their
--     helpers of c/src/mem_slot.c. MemSlot/Masks and MemSlot/Mark are about the marking of a range,
--     MemSlot/Search about the search for a run, MemSlot/Alloc about the operations.
--   * BinarySearch: the macro `binary_search` of c/src/utils.h.
--   * MemPool: the pool of c/src/mem_pool.h and c/src/mem_pool.c, which looks its fields up by
--     BinarySearch. MemPool/Chain says when a pool is well formed; MemPool/Pick, MemPool/Serve and
--     MemPool/Alloc are about `memp_alloc`, MemPool/Recycle, MemPool/Realloc and MemPool/Fresh about
--     `memp_recycle`, `memp_realloc` and `memp_new`; MemPool/Sample is a pool to run the code on.
--   * LuaBind: `lalloc` of c/src/lua_bind.c, the allocator of a Lua state, which works on MemPool.
--     LuaBind/Laws holds it against the contract of `lua_Alloc`. LuaBind/Threads, LuaBind/Locals and
--     LuaBind/Chunks are the functions of the file for the tables of threads, of their local variables
--     and of loaded files, on Lua; LuaBind/Threads/Lent and LuaBind/Locals/Fetched are about
--     the first two.
--   * Lua: the calls of the interpreter that LuaBind and Pconf use, on a stack; Lua/Stack is about its
--     indices, Lua/Sample is an interpreter to run the code on.
--   * Pconf: the reading of values in c/src/lua_pconf.c, on Lua.
--   * Buddy: c/src/mem_buddy.c and c/src/mem_buddy.h. Buddy/Height gives the nodes of the tree in the
--     array their heights, Buddy/Free is about `buddy_free` and Buddy/Alloc about `buddy_alloc`.
--   * RbTree: c/src/rb_tree.h and c/src/rb_tree.c over an explicit store of nodes (RbTree/Store), with
--     the operations in RbTree/Rotate, RbTree/Insert and RbTree/Delete. RbTree/Shape relates a
--     store to the tree that it spells. RbTree/Trail is a tree with a place in it, and what stands
--     above the place; RbTree/Trail/Turn is about the rotations there. RbTree/Balance says when a tree
--     is red-black, RbTree/Sorted when its nodes stand in the order of their keys. RbTree/Link is about
--     `rb_tree_insert`, RbTree/Repair, with RbTree/Repair/Steps and RbTree/Repair/Rounds, about
--     `rb_tree_insert_case`, RbTree/Add about both, and RbTree/Search about `rb_tree_find`.
--   * Dlist: the doubly linked list of c/src/dlist.h and c/src/dlist.c over a store of nodes.
--     Dlist/Segment is the stretch that linked nodes form, Dlist/Laws and Dlist/Remove the operations.
--   * Timeout: `asthread_remove_timeout_threads` of c/src/thread.c, which works on an RbTree.
--     Timeout/Split is the cut on trees, Timeout/Expired and Timeout/Cut the cut on stores,
--     Timeout/Remove and Timeout/Crash are about the whole function.
--   * World: the threads and resources of c/src/thread.h at their addresses, the two pools and the list
--     of stopped threads of c/src/mw_worker.h, and commands on them. World/Travel has the macros
--     `rb_tree_postorder_travel` and `dlist_pos_travel`; World/Keeps and World/Visit are rules for what
--     commands keep.
--   * Thread: c/src/thread.c and the macros of c/src/thread.h. They work on a pool by RbTree and on
--     the list of a thread's resources by Dlist. Thread/Calm says which of them leave the stopped
--     threads alone, Thread/Armed is about the registration for events, and Thread/Pool about the order of a
--     pool, by RbTree.
--   * Worker: the loop of c/src/mw_worker.c, which takes threads out of a pool by Timeout and moves
--     them by Thread. Worker/Stop says how the list of stopped threads and the threads agree,
--     Worker/Leave how a thread is left, Worker/Once is about the handlers up to a whole round, and
--     Worker/Freed about the freeing of threads and the end of the loop.
--   * Kernel: the calls of `read` and `send`, as a parameter, and what is documented of `send`;
--     Kernel/Sample is a kernel to run the code on.
--   * Socket: c/src/lm_socket.c. Socket/Stream is about a whole `send`, Socket/Life about the
--     coming and going of sockets, which works on World; Socket/Wait is the waiting for events.
--   * Bytes: c/src/bytes.c; Bytes/Content is about the bytes that a buffer holds, Bytes/Read about
--     reading from a descriptor. Bytes/Ref is c/src/lm_bytes.c and `lcf_socket_sread_all`.
--   * Net: the calls on sockets, descriptors and epoll, as a parameter, and what is documented of them;
--     Net/Sample is a network to run the code on.
--   * Server: c/src/server.c. The loops over a client's bytes stand in the module itself and work on
--     Kernel; the making of sockets and the passing of descriptors in Server/Sockets, on Net.
--     Server/Ledger is about the descriptors that are open.
--   * Master: c/src/mw_server.c, on Server/Sockets. Master/Deal and Master/Rounds are about
--     `master_process`, Master/Drain about an event on the listening socket; Master/Start is
--     `master_workers_server`, and Master/Start/Connected is about it.
--   * SelectServer: c/src/select_server.c, on Server; SelectServer/Watch is about the set of descriptors.
--   * EpollServer: c/src/epoll_server.c, on Server; EpollServer/Variable is about its variable `infd`.
--   * Counter: c/src/lm_counter.c.
-- The modules named Tests hold runs and the theorems at concrete inputs.
--
-- State and representation. A bitmap is a list of bytes; the pool's memory is a map from addresses
-- to blocks, and the tree's store a map from addresses to nodes. NULL is the address 0. What C
-- leaves undefined, an access through NULL, through an address that holds nothing, or outside an
-- array, is a value: `none`, or `fault`. Machine integers keep their wrap-around: masks act on
-- bytes, the counters `used` and `empty` of a pool are the bit patterns of an `int`. `malloc` and
-- `realloc` are arguments, called with the sum of the size and the header of a block in a `size_t`;
-- MemPool/Serve assumes of `malloc` that memory returned has the size asked for and is not in use,
-- and IsSized of MemPool/Pick that the sizes of a pool leave room for the header. The clock and the
-- time of a thread, `et`, are arguments of Timeout.
--
-- Fuel. The loops over lists and over the bytes of a slot are structural. `binary_search` gets the
-- length plus one, which its theorem shows to be enough for the lengths at which no `int`
-- overflows. The loops of RbTree and Timeout take fuel, and running out is a result of its own; the
-- theorems name the fuel that is enough: the length of the right or left spine of the tree, or for
-- insertion and search one more than its nodes.
--
-- The loops of World, Thread, Worker and Buddy take fuel as well, and running out is an outcome of
-- its own (`no_fuel`); the theorems on World, Thread and Worker are about what holds where a
-- command ends, and for `buddy_free` more than `logn` is enough. Those of Socket, Server and Bytes
-- name the fuel that is enough: the number of bytes left, or of chunks to come; that of Master one
-- more than the connections that wait. The outer loops of Master, SelectServer and EpollServer have
-- no end: they are modelled for any number of rounds.
--
-- Parameters. What a coroutine does (`lua`), whether there is a Lua thread for a number (`ref`),
-- whether `epoll_ctl` succeeds (`ctl`), what `memp_alloc` returns (`memp`, `alloc`, `memory`), the
-- events that `epoll_wait` reports and the connections that wait are arguments of the model, as are
-- the kernel, the network, the processes and the state of Lua. What the theorems suppose of them
-- stands in IsStream of Kernel, IsLedger and IsLogged of Net, Keeps of SelectServer/Watch, Succeeds
-- of Master/Start/Connected, IsWatch of EpollServer/Variable, IsInterp of Lua and NoNewIndex of
-- Bytes/Ref. The theorems on the list of stopped threads suppose that Lua code leaves that list and
-- the status of threads alone and puts no thread into a pool, and that `memp_alloc` gives an
-- address that no thread has. A node of a tree or list is in memory at the address of its thread or
-- resource.
--
-- Limits. `slot_free` is modelled for offsets that are not negative. The tests `t == NULL` and `p
-- == NULL` of a missing tree, pool or slot are left out. The array of stopped threads has no bound
-- in the model. Functions for Lua take their arguments and give what they push; the set-up of
-- `process` and the conversions to strings are left out. In Socket only the stack that a
-- continuation finds is modelled, in Bytes/Ref only what is needed of it, and in LuaBind and Pconf
-- the whole stack of a call; a text and its address have one number there, and an interpreter
-- always has memory. The values of the configuration in Master/Start are arguments. Where an `int`
-- of Server or BinarySearch would overflow, the result is `none`, as without fuel; the theorems
-- name the sizes for which it does not. The shifts of Buddy are those of an `int` for `logn` below
-- 31. Not modelled: the rest of the glue to Lua (the set-up and printing in c/src/lua_bind.c and
-- c/src/lua_pconf.c, c/src/lua_utils.c, c/src/lua_output.c, c/src/lua_adapter*.c, c/src/lm_base.c)
-- and the programs (c/src/channel.c, c/src/main.c), which are calls of the interpreter or the
-- operating system; and the Go program under go.
pub mod BinarySearch
pub mod BitScan
pub mod Buddy
pub mod Bytes
pub mod Counter
pub mod Dlist
pub mod EpollServer
pub mod Kernel
pub mod Lua
pub mod LuaBind
pub mod Master
pub mod MemPool
pub mod MemSlot
pub mod Net
pub mod Pconf
pub mod Prelude
pub mod RbTree
pub mod SelectServer
pub mod Server
pub mod Socket
pub mod Thread
pub mod Timeout
pub mod Worker
pub mod World
