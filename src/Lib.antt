-- ===== src/Lib.antt =====
-- OS-Class: two versions of a clipboard in the Linux kernel, a ring of five numbers that processes
-- copy to and paste from.
--
-- The program. lab1 adds three system calls to the kernel (lab1/kernel/os_kboard.c, entered in
-- lab1/kernel/syscall_64.tbl and lab1/kernel/syscalls.h) under one spin lock, with a library of three
-- wrappers and five programs on it (lab1/user). lab2/KboardModule.c is the same clipboard as a module
-- with four files under /proc/kboard, whose handlers run in a critical section of readers and
-- writers; SYNC_SOLUTION chooses one of three solutions of it.
--
-- The files.
--   Common: C's `int` with its wrap-around written out, array accesses that may fail, tests on
--     numbers, lists, sums over the threads, and how a call ends (`Outcome`: done, blocked for ever,
--     or an access outside an array).
--   Ring: the array, the index and the count that both versions keep, and the list of clips that they
--     stand for. Fifo: the contract of both, a queue of at most five clips.
--   Lab1/Kernel: `do_sys_kb_enqueue`, `do_sys_kb_dequeue` and `do_sys_kb_init` as functions of the
--     board; the spin lock and `copy_to_user` are the parameter `KernelApi`. Failed is about their error
--     returns, RoundTrip about clips put on the board and taken off again.
--   Lab1/User: the system call table, the wrappers, and the programs copy.c, paste.c, init.c; one round
--     of the loops of copy_sync_test.c and paste_sync_test.c, and any order of such rounds.
--   Lab2/Sync: `InitializeSyncSolution`, `EnterCriticalSection_Writer`, `EnterCriticalSection_Reader`,
--     `LeaveCriticalSection_Writer` and `LeaveCriticalSection_Reader`, one module per solution. A place
--     stands before a statement, `step` executes it, and System interleaves the steps of any number of
--     threads, each of which calls as a reader or a writer as often as it likes. The semaphores are the
--     parameter `Semaphores`. The Section modules show that each solution is a `CriticalSection`.
--     For Solution 2, Gate is about the readers that arrive while writers come and go.
--     For Solution 3, Supply counts who waits and who will wake whom, and Progress draws from it.
--     Solution1/Counter adds the `PerformReader++` of `KboardReader_Show` as a load and a store.
--   Lab2/Kboard: `KboardWriter_Show`, `KboardWriter_Write`, `KboardReader_Show`, `KboardCounter_Show`,
--     `KboardDumper_Show` and `InitializeKboard`, for any `CriticalSection`; `copy_from_user` and
--     `sscanf` are the parameter `UserText`.
--   Lab2/Interleaved: the three handlers that use the ring, one statement per step, called by any number
--     of threads at once within the code of any solution. `Event` is what a handler completes, and
--     `replay` the queue after a history of events.
--   Lab2/Proc: `InitializeProc` and `DestroyProc`, the four `file_operations` and the Open functions,
--     for any `ProcFs`, the kernel's proc file system. Lab2/Module: `KboardModuleInit` and
--     `KboardModuleExit`, over the board and the files.
--   Lab2/Requests: sequences of reads and writes of the four files, and what a queue may answer. Alike
--     compares two solutions, each with the handlers without a lock (Lab2/Kboard/Lockless).
--   Lab2/SyncTest: lab2/SyncTest.c, its numbers of threads, its loops that create and join them, and
--     its `main`, for any `Pthreads`, the C library; and its three thread functions as requests.
--   Tests: concrete runs, and each theorem at a concrete input.
--
-- Assumptions. A statement on a shared variable is one step; counters are 32-bit `int`s that wrap,
-- and the theorems on threads ask for fewer than 2^31 - 1 of them. Semaphores count and may wake any
-- sleeper. The handlers in Lab2/Kboard are stated for a caller that finds the critical section
-- quiet, alone for the time of its call; Lab2/Interleaved drops this for the part of them from Enter to
-- Leave. `Alone.walk` runs a function of a solution for at most 16 steps, which is enough
-- for a lone caller, as the Section modules show.
--
-- Loops over an array recurse on the number of rounds left, which the bound of the loop gives, so that
-- each returns or stops at an access outside the array. An entry of the proc file system is a pointer
-- that may be NULL; its use after it is freed is a fault.
--
-- Not modelled: printk, mdelay, lockdep, the Makefiles, and the rest of the kernel's two files that lab1
-- extends.
pub mod Common
pub mod Ring
pub mod Fifo
pub mod Lab1
pub mod Lab2
pub mod Tests
