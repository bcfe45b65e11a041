-- ===== src/Lib.antt =====
-- A verification library for fasco (moxie): coroutines and event loops in C++.
--
-- The program. A thread runs an EventLoop (base/EventLoop.cpp): it waits on an Epoll
-- (base/Epoll.cpp) for the descriptors of the Events objects (base/Events.cpp) that were registered
-- with it, and resumes the coroutine that waits for a descriptor, which it finds in the thread's
-- McoPool (base/McoPool.cpp). Loops are found by thread, and handed out in turn to new connections,
-- by EventLoopPool (base/EventLoopPool.cpp). Objects that belong to a thread come from PoolInThreads
-- (tools/PoolInThreads.hpp). Coroutines with a common stack have what they used of it copied away
-- and back (mco/McoStack.cpp); McoResume and McoYield (mco/McoRoutine.cpp) put the coroutines
-- that wait for each other on a call stack (mco/McoCallStack.h). The library replaces read,
-- accept and close (base/SysapiHook.cpp): on a blocking descriptor a coroutine's read or accept
-- registers an Events object with the loop of its thread (base/Eventsops.h), yields, and makes the
-- system call when the loop has resumed it. A TcpServer (base/TcpServer.cpp) is such a coroutine on
-- the main loop; it hands each connection to the next loop with a coroutine of its own.
--
-- The files.
--   Base, Base/*     helpers: integers, maps, bits of masks, and what a run comes to (Outcome)
--   Events           base/Events.h, base/Events.cpp: class Events is the record Events, a member
--                    function is a function on it of the same name in snake case; NEW, MOD, USED,
--                    DEL, INVAILD are new, modified, used, del, invaild
--   Kernel           epoll(7) and eventfd(2), an interface with the documented behaviour as laws;
--                    Kernel/Table is a kernel that can be run
--   Epoll            base/Epoll.h, base/Epoll.cpp
--   EventLoop        base/EventLoop.h, base/EventLoop.cpp; dispatch is Mcosops::Resume
--                    (base/Mcosops.h) of the coroutine found. A World is a loop, the heap of Events
--                    objects, the kernel's state and the thread's McoPool
--   McoPool          base/McoPool.h, base/McoPool.cpp
--   EventLoopPool    base/EventLoopPool.h, base/EventLoopPool.cpp
--   PoolInThreads    tools/PoolInThreads.hpp
--   McoStack         mco/McoStack.h, mco/McoStack.cpp
--   Mcontext         mco/Mcontext.h, mco/Mcontext.cpp, for x86_64; Mcontext/Narrow for i386
--   McoCallStack     mco/McoCallStack.h
--   McoRoutine       mco/McoRoutine.h, mco/McoRoutine.cpp: the data; McoRoutine/Swap is McoSwap,
--                    McoRoutine/Schedule is MainMco, McoResume, McoYield and McoFree
--   Continuation     base/Continuation.h, base/Mcosops.h
--   Process          base/Eventsops.h, and the state that the threads of a process share;
--                    Process/Spawn is LoopThreadFunc of test/MultiThreadServer.cpp up to its loop,
--                    Process/Rounds the round of one loop among others
--   Hook             base/SysapiHook.cpp: read and accept in two halves, before and behind the yield
--                    (read_begin, read_end, ...), and close
--   TcpServer        base/TcpServer.h, base/TcpServer.cpp; TcpServer/Life is a server process: the
--                    steps of its threads in any order
--   Socket           base/Socket.h, base/Socket.cpp
--   NetAddress       base/NetAddress.h, base/NetAddress.cpp
--   Thread           base/Thread.h, base/Thread.cpp
--   ThreadPool       base/ThreadPool.h, base/ThreadPool.cpp
--   Log              base/Log.h, base/Log.cpp, over glog
--   Handler          base/Handler.h
--   CallStack        tools/CallStack.hpp
--   Mutex            base/Mutex.h, base/Mutex.cpp, base/MutexLocker.h, base/MutexLocker.cpp;
--                    Mutex/Blocks is threads whose blocks stand under one mutex
--   Timestamp        base/Timestamp.h, base/Timestamp.cpp; Timestamp/Decimal is the decimal notation
--   Tests            tests, and the theorems at concrete inputs
--
-- Choices. A uint32_t mask is a number, with IsU32 as a hypothesis where it matters; the poll flags
-- have their values on Linux. int and long values that are compared or passed on are the integers ℤ.
-- Asserts are evaluated unless the argument ndebug says otherwise (SConstruct does not define
-- NDEBUG). What stands under a mutex is one step. Three loops take fuel: the retries of
-- Epoll::loopWait after EINTR, the rounds of EventLoop::loop and the calls of Handler::DoHandle; a run
-- whose fuel ends is pending, and fuel above the number of interruptions, rounds or calls is enough.
-- The coroutine that a loop resumes is user code, so it is a parameter of the loop: what is said of
-- loops, hooks and servers holds for any way of running coroutines that meets the hypotheses named.
-- McoRoutine and Continuation are the source's own way, which leaves stackMgr null.
--
-- Not modelled: what the LOGGER_ macros and operator<< print, the lifetime of shared objects, data
-- races outside the mutexes, and what is not listed above (the switch of the processor in
-- mco/swap.S; base/SigIgnore.cpp, which is one library call).
pub mod Base
pub mod Events
pub mod Kernel
pub mod Log
pub mod CallStack
pub mod Handler
pub mod Epoll
pub mod McoPool
pub mod EventLoop
pub mod EventLoopPool
pub mod PoolInThreads
pub mod McoStack
pub mod Mcontext
pub mod McoCallStack
pub mod McoRoutine
pub mod Continuation
pub mod Process
pub mod Hook
pub mod Mutex
pub mod NetAddress
pub mod Socket
pub mod TcpServer
pub mod Thread
pub mod ThreadPool
pub mod Timestamp
mod Tests
