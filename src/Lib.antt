-- ===== src/Lib.antt =====
-- The Tracy client that this repository builds into the game (libs/ztracy/libs/tracy): how profiling
-- events are laid out, queued, buffered, written to the wire, and given back to the allocator.
--
-- The application threads put 32-byte items into queues; the profiler's worker thread takes them
-- out, turns times into differences, sends the texts that items point to, and appends the items to
-- a send buffer, which goes to the socket in LZ4 frames.
--
--   Common   C arrays as lists with native indices, little-endian words, tests on numbers.
--   Wire     common/TracyQueue.hpp: the kinds, every packed structure, the item, the wire sizes.
--   Sender   `AppendData`, `NeedDataSize`, `CommitData`, `SendData` (client/TracyProfiler.hpp, .cpp).
--            `Sender` holds `m_buffer`, `m_bufferOffset`, `m_bufferStart`. LZ4 and the socket are the
--            record `Link`, a parameter.
--   Payload  `SendString` and the other senders of variable length, and `AllocSourceLocation`.
--   Vector   client/TracyFastVector.hpp.
--   Ring     client/TracyRingBuffer.hpp: the reader of a perf event buffer.
--   Memory   `FreeAssociatedMemory` (client/TracyProfiler.cpp).
--   Serial   `DequeueSerial` and `ClearSerial` (client/TracyProfiler.cpp).
--   Dequeue  `Dequeue` and `ThreadCtxCheck`; Emit is what an event points to, sent and given back,
--            and `CutCallstack`; Switches is `DequeueContextSwitches` (client/TracyProfiler.cpp).
--   Zone     client/TracyScoped.hpp, with `SendCallstack`; a thread's lock-free queue is a list.
--   CZone    the zones of the C interface (client/TracyProfiler.cpp), and a reader who checks them.
--   Report   frame marks and images, plots, messages and parameters (client/TracyProfiler.hpp).
--   Gpu      the GPU events of the C interface (client/TracyProfiler.cpp).
--   Worker   `Worker` (client/TracyProfiler.cpp): the handshake, the replay of the deferred queue, the
--            main loop and the loop at the exit.
--   MemEvent `MemAlloc`, `MemFree` and their variants (client/TracyProfiler.hpp).
--   Query    `HandleServerQuery` and what it calls, but `HandleDisconnect` (client/TracyProfiler.cpp).
--   Lock     client/TracyLock.hpp: what threads at a lock report, and its on-demand switch.
--   Socket   the reading and sending loops of common/TracySocket.cpp; `Net` is the system's side.
--
-- Memory that a pointer leads to is a function from addresses to the bytes from there on, or the
-- list of these bytes where a function takes one pointer; bytes are numbers, 64-bit times are their
-- bit patterns, and every wrap-around that C does on unsigned types is written out. What
-- uninitialised memory holds is the parameter `raw`. Allocation does not fail. Loops run over lists,
-- but those of `Socket`, whose fuel is bounded by the bytes asked for and the failures that happen, and
-- the loop of `Worker` at the exit, for which three rounds more than those in which something happens
-- are enough, since each of these takes a vector of the serial queue out or ends the loop.
--
-- The build that is modelled has TRACY_FIBERS off; TRACY_ON_DEMAND and the callstack and tracing
-- switches are the Booleans of `Memory.Build`. Not modelled: the lock-free queue (a copy of
-- concurrentqueue), the allocator (rpmalloc), LZ4, libbacktrace, what asks the operating system for
-- something, and the game itself, which is not C++. A spin on a lock is taken as one step, and so is
-- each function of a lock or a zone, which in the code others may interrupt. Left out are the
-- listening socket and the broadcast of `Worker`, the symbol thread, `HandleDisconnect`, the headers
-- for graphics interfaces, and the texture compressor.
pub mod Common
pub mod Wire
pub mod Sender
pub mod Payload
pub mod Vector
pub mod Ring
pub mod Memory
pub mod Serial
pub mod Lock
pub mod Socket
pub mod Emit
pub mod Zone
pub mod MemEvent
pub mod Query
pub mod Dequeue
pub mod Switches
pub mod CZone
pub mod Report
pub mod Gpu
pub mod Worker
