-- ===== src/Lib.antt =====
-- The ztyco server library (C++, src/ and include/): timers, fibers, the scheduler, the epoll
-- scheduler, the table of descriptors, the hooked system calls, the program's environment, the
-- configuration, string and file helpers, the log, addresses, sockets, the TCP server and the daemon.
--
-- How the parts interact. A `Scheduler` runs fibers and functions on its threads. An `IOManager` is
-- a `Scheduler` and a `TimerManager` whose idle fiber waits in `epoll_wait` for the next timer or
-- event and schedules what was waiting. The hooks of the system calls turn a call that would block
-- into a registered event, a condition timer and a fiber on hold; they find the descriptor's
-- timeouts in the `FdManager`. A `Socket` calls them. Every part writes to a `Logger`, whose
-- appenders print by a `LogFormatter`; the configuration sets up the loggers by a listener.
--
-- Which file models what:
--   Base: the numbers, lists and Boolean tests that all share; `Outcome` (Base/Faults) is what a
--     call comes to: it returns, ZZ_ASSERT stops the process, or it is undefined behaviour.
--   Timer: src/timer.cc and include/timer.h. A timer is an address in a heap; `m_timers` is the
--     list of the set's elements in order, searched by the comparator as `std::set` searches. The
--     clock is an argument. Its operations have the names of the methods: `add_timer`, `cancel`,
--     `refresh`, `reset`, `get_next_timer`, `list_expired_cb`, `detect_clock_rollover`.
--   Fiber: src/fiber.cc and include/fiber.h. Fibers by address, with the thread's current fiber and
--     the count; a context switch is the change of the current fiber.
--   Scheduler: src/scheduler.cc and include/scheduler.h. The queue of tasks, the search for a task
--     (`pick`), `start` and `stop`; Scheduler/Round has one round of `Scheduler::run` (`round`).
--   IoManager: src/iomanager.cc and include/iomanager.h. Contexts by address, the table, the count
--     of pending events and what is scheduled; `add_event`, `del_event`, `cancel_event` and
--     `cancel_all` (IoManager/Calls), and the turn of `idle` for a report of the kernel (`handle`,
--     IoManager/Idle).
--   FdManager: src/fdmanager.cc and include/fdmanager.h. `get` is its two critical sections, `look`
--     and `make`.
--   Hook: src/hook.cc. `do_io` and the sleeps; `connect_with_timeout` (Hook/Connect); `socket`,
--     `close`, `fcntl`, `ioctl` and `setsockopt` (Hook/Calls).
--   Env: src/env.cc and include/env.h. The command line, the arguments, help texts and paths.
--   Util: the trims and the parts of a path of src/util.cc; directories and files (Util/Files) over a
--     file system that is an argument, where `rm` and `list_all_file` are on fuel, since their loops
--     read one entry and never the next.
--   Config: src/config.cc and include/config.h. The variables with their listeners, `Lookup`, and
--     what loading a YAML tree changes; the casts of containers (Config/Casts).
--   LogFormatter: the log patterns of src/log.cc and include/log.h.
--   Log: the rest of src/log.cc. Appenders and loggers are addresses in a store (`Logs`) with the
--     state of their spin locks; a call returns, waits for ever for a lock that its thread holds,
--     or is undefined (`Run`). Log/Appenders has the appenders and their streams with
--     `FSUtil::OpenForWrite` of src/util.cc, Log/Loggers the loggers, Log/Manager the manager and
--     the listener of the setting `logs`, Log/Defines the casts of its value.
--   Address: src/address.cc and include/address.h, over the bytes as they lie in memory: the masks,
--     IPv4 and IPv6; their texts (Address/Text), local addresses (Address/Local), the order
--     (Address/Order), the lookups and the interfaces (Address/Resolve).
--   Socket: src/socket.cc and include/socket.h. A socket is a value; what a call does to the kernel
--     and to the table of descriptors is in the world of Hook.
--   TcpServer: src/tcpserver.cc and include/tcpserver.h, over Socket.
--   Daemon: src/daemon.cc, over a script of what `fork` and `waitpid` come to.
--
-- Bounds and loops. Every loop is structural recursion on a list, a tree or a number of the
-- program, so no fuel is used but in `CountBytes`, where the bits of the word are enough
-- (`count_bytes_lem`), and in `Logger::log`, whose depth is the length of the chain of parents:
-- two, since only the root logger has none above it, and in Util/Files. A `uint64_t` wraps at
-- 2 ^ 64, an `unsigned` at 2 ^ 32; an `int` that is negative is an integer (Base/Int), or a word where
-- its bits count.
--
-- Parameters. The clock, the system calls (`Ctl`, `Sys`), what they reply (`Reply`, `Wait`), the
-- states that fibers come back with (`Round`), `strftime`, `getaddrinfo`, `getifaddrs`, the files
-- that can be opened and the kernel under the sockets (`Net`) are arguments; a theorem that relies
-- on what they do says so in a hypothesis.
--
-- Not modelled: the code of the contexts (`ucontext`), threads, and the parser and the printer of
-- YAML, which are an argument of the casts (`Yaml`, `Nodes`). Each critical section of a mutex is one
-- step; the locks are states in Log alone, since there a thread takes a second one.
pub mod Base
pub mod Timer
pub mod Fiber
pub mod Scheduler
pub mod IoManager
pub mod FdManager
pub mod Hook
pub mod Address
pub mod Config
pub mod Daemon
pub mod Env
pub mod Log
pub mod LogFormatter
pub mod Socket
pub mod TcpServer
pub mod Util
