-- ===== src/Lib.antt =====
-- Lunchbox, a C++ library of containers and thread primitives: what its parts promise.
--
-- The parts and the files that model them:
--   Prelude         lists, options, Booleans and `size_t` arithmetic that all parts share.
--   EdgeSet         the std::multiset of interval edges in lunchbox/intervalSet.h (`Edge`,
--                   `EdgeCompare`, `EdgeSet`) as the list of its edges in order; an iterator is a
--                   cursor with the edges before it and the edges from it on.
--   IntervalSet     lunchbox/intervalSet.h and lunchbox/intervalSet.ipp: `insert`, `erase`, `find`,
--                   `exists`, `size`, `empty`, `clear`, `swap` and `insert(rhs)`, each under the name
--                   of the C++ function. `insert` and `erase` are cut in the stages of their bodies
--                   (`find_previous`, `place_start`, `sweep`, `close_insert`; `erase_at`,
--                   `erase_from`), which pass the local variables on.
--   BitOperation    `getIndexOfLastBit` of lunchbox/bitOperation.h for 64 bits, which finds the slot
--                   of an element of LfVector, and `byteswap`.
--   LfVector        lunchbox/lfVector.h, lfVector.ipp and lfVectorIterator.h: a vector over `nSlots`
--                   arrays of doubling size. `get` and `put` are `operator[]` to read and to write, and
--                   LfVector/Bulk has the operations on many elements.
--   LfQueue         lunchbox/lfQueue.h and lunchbox/lfQueue.ipp: a ring between one reader and one
--                   writer.
--   MtQueue         lunchbox/mtQueue.h and lunchbox/mtQueue.ipp: a bounded queue between threads.
--                   An operation is one step under the mutex; `Outcome` tells whether it waits, and
--                   `Done` whether it notified. MtQueue/Calls runs sequences of calls, and
--                   MtQueue/Barrier has `popBarrier` and the threads that use it.
--   RequestHandler  lunchbox/requestHandler.h and lunchbox/requestHandler.cpp: requests with an
--                   identifier, each with a record that is locked until the request is served.
--                   RequestHandler/Status is the abstract view: absent, pending or answered.
--   SpinLock        lunchbox/spinLock.cpp: the lock of the containers, for one writer or many
--                   readers, as one number and the threads that swap it.
--   Buffer          lunchbox/buffer.h and lunchbox/buffer.ipp: a growing array of plain values.
--   IndexIterator   lunchbox/indexIterator.h: an iterator as a container and a position.
--   RefPtr          lunchbox/refPtr.h and lunchbox/referenced.h: the counted objects in a store, and
--                   the programs that construct, assign and destruct pointers to them.
--   Monitor         lunchbox/monitor.h: a value that threads change and wait for. The threads that
--                   wait are part of the state; a spurious wake-up and a timeout are calls.
--   Thread          lunchbox/thread.cpp: `start`, `join`, `cancel`, `exit` and the body of a child, as
--                   events of an owner and of its children in any order.
--   ThreadPool      lunchbox/threadPool.h: the queue of tasks, the workers and the destructor, as
--                   events in any order.
--   Atomic          lunchbox/atomic.h: an atomic integer and the threads in the loops over
--                   `compareAndSwap`. Atomic/Loops and Atomic/Values have what the loops keep.
--   Pool            lunchbox/pool.h: objects that are kept for reuse, and the callers that use them.
--   Future          lunchbox/future.h, futureFunction.h and readyFuture.h: a future over the interface
--                   `FutureImpl`, which a function or a known value implements.
--   File            lunchbox/file.cpp: the parts of a path, and the saving and loading of objects.
--   Init            lunchbox/init.cpp: the arguments, and the count of `init` and `exit`.
--   Fork            lunchbox/fork.cpp: `_buildCommandLine`, which cuts a command into words, with its buffer and
--                   each write to it; Fork/Texts has the same without a buffer.
--   MemoryMap       lunchbox/memoryMap.cpp: the code for POSIX. What the operating system answers is
--                   an argument, and what it keeps open is part of the state.
--   Request         lunchbox/request.h: the handle on a request of RequestHandler and its `wait`.
--   Log             lunchbox/log.cpp: the buffer of a thread, the levels, and the threads that flush
--                   into one stream, each flush as one step. Log/Flush has the lock and the single
--                   bytes of a flush.
--   PluginFactory   lunchbox/pluginFactory.h, pluginFactory.ipp and plugin.h: the plugins in their
--                   order and the libraries they come from.
--
-- Numbers: a `size_t` is a natural number below 2 ^ 64 and its arithmetic wraps (`add_size`,
-- `sub_size`). The element type of IntervalSet is `size_t`. A failed `LBASSERT`, an exception and a
-- read or write out of an array are `none`.
-- Loops: most are structural recursions. The one of `getIndexOfLastBit` has 64 rounds of fuel, as
-- many as a value has bits, and those of LfVector/Bulk have a round for each element.
-- Threads: the operations of LfVector that change it hold its lock, so each is one step. The
-- operations of LfQueue are calls one after the other in LfQueue, and LfQueue/Threads has the single
-- accesses of its two threads. SpinLock and Atomic have the single accesses of any number of
-- threads. Memory is sequentially consistent in all three. A call of MtQueue that waits is not a step; any thread takes
-- the next one. The end of a timed wait is any moment.
-- Not modelled: the parts of the library that only call the operating system, the compiler or the
-- standard library (clocks, processes, thread-specific storage, dynamic libraries, random bytes,
-- RTTI and serialization), the printing of objects, and the code for other platforms than POSIX.
pub mod Prelude
pub mod EdgeSet
pub mod IntervalSet
pub mod BitOperation
pub mod LfVector
pub mod LfQueue
pub mod MtQueue
pub mod RequestHandler
pub mod Request
pub mod SpinLock
pub mod Atomic
pub mod Pool
pub mod Future
pub mod File
pub mod Init
pub mod Fork
pub mod Buffer
pub mod IndexIterator
pub mod RefPtr
pub mod Monitor
pub mod Thread
pub mod ThreadPool
pub mod MemoryMap
pub mod Log
pub mod PluginFactory
