-- ===== src/Lib.antt =====
-- The core of an xv6 kernel with a scheduler of classes and levels: locks, the process table,
-- sleeping and waking, the choice of the process to run, traps, memory and address spaces, pipes,
-- open files, the log, the buffer cache, the file system, the console, and the checks of user
-- pointers; and of its programs the user library, grep and the shell.
--
-- Kernel code is a function from the kernel's state to a result and a new state, or a panic
-- (Kernel/Monad). The state (Kernel/State) has the process table, the counters of runnable
-- processes, the clock, the locks that this CPU holds and its interrupt flag. A pointer to an entry
-- of a table is its index. `uint` values wrap at 2 ^ 32, written out; `int` counters and
-- reference counts are integers without a bound.
--
-- - Prelude: Boolean tests, lists, counts and integers over the native numbers.
-- - Kernel: struct proc, struct cpu (proc.h), the globals of proc.c and trap.c, and kernel code.
-- - Spinlock: spinlock.c. Nesting has pushcli and popcli around a section; Contention has any
--   number of CPUs that compete for one lock, one access to the lock's memory being one step.
-- - Proc: proc.c. Access (myproc, the counters, the clock), Wakeup (wakeup1, wakeup, kill), Create
--   (allocproc, userinit, growproc, fork), Switch (sched, yield, sleep), Finish (exit, wait),
--   Classes (set_deadline_for_process, change_sched_level, update_wait_time, is_higher_waiting),
--   Choose and Scheduler (one round of scheduler; Turns is about a sequence of rounds). Tally is
--   what the counters mean, Quiet the state in which these functions are called. What proc.c calls
--   in vm.c, kalloc.c, file.c, fs.c, log.c and swtch.S is the record Services.
-- - Trap: trap.c, with the device drivers and the system calls as parameters.
-- - Strings: string.c, on a memory of bytes.
-- - Kalloc: kalloc.c, with the end of the kernel and the top of memory as a parameter.
-- - Pipe: pipe.c; what other processes do while one sleeps is a parameter. Queue is the abstract
--   queue that the ring stands for.
-- - Files: file.c, with the pipe and inode layers as parameters.
-- - Log: log.c, on a disk that is a function from block numbers to contents. What a function writes
--   is the list of its writes, so that a crash is a beginning of that list (Writes, Crash).
-- - Fs: fs.c, on a disk seen through the buffer cache, as the bytes of each block. Blocks (the free
--   map), Inodes (on disk and in the cache), Content (bmap, readi, writei; Slots is what keeps the
--   blocks of an inode apart, Short what it means that blocks are wanting), Directory and Names.
-- - Console: console.c. Line is the input as two texts, Typing what the keys do to them.
-- - Vm: vm.c with mmu.h, on the memory of the machine, a byte at each kernel virtual address. Space
--   has the address spaces; Rounds and Endings count the rounds of the loops, Walk is about walkpgdir.
-- - Syscall: the arguments and the table of syscall.c.
-- - Sysproc: the handlers of sysproc.c, on the process model and the arguments in user memory.
-- - Sysfile: the file descriptors of sysfile.c and pipealloc of pipe.c. Counts and Descriptors are the
--   references that a step takes or gives back, Pipes and Install those of a new pipe, Handlers the
--   calls, Exec the arguments of sys_exec. exec.c and the answer of kalloc are parameters.
-- - Paths: the calls of sysfile.c on paths, on Fs. State is the file system with the number of
--   operations of the log that were begun and ended; Link, Unlink and Create have the calls, Balance
--   and Calls what they do to that number.
-- - Bcache: bio.c, with the disk driver as a parameter.
-- - Format: the numbers that both versions of printint write, that of the kernel in Console (Print)
--   and that of the user library.
-- - User: Library (ulib.c), Printf (printf.c), Grep (grep.c) and Shell (the parser of sh.c, and
--   in Run its runcmd, as a tree of system calls that Machine runs). A string is the list of its bytes.
-- - Tests: concrete data on which the theorems are run.
--
-- Calls flow downwards: Trap calls Proc (wakeup, update_wait_time, yield, exit), Proc calls Spinlock,
-- and Proc and Files reach the layers below them through their parameters.
--
-- Loops over a table run as often as the table is long. The loops that wait (pipewrite, piperead,
-- wait, sys_sleep) have fuel, one unit for each turn; the theorems give the fuel that is enough,
-- and where a process would sleep for ever the result is none. The loops of fs.c have fuel for
-- each byte, entry or map block, and a path has fuel for each of its bytes. freerange has one unit
-- of fuel for each page below the end of the range; so do the loops of vm.c, and copyout has one
-- for each byte. The parser of the shell has four calls for each byte of the line, grep one round for
-- each byte of the file. isdirempty has one round for each entry of the directory.
--
-- Not modelled: exec.c, sleeplock.c; the segments and the registers of vm.c, the drivers, the boot
-- code and the assembly, which are the state of hardware; procdump and print_sched_info, which
-- print; umalloc.c, the loop of the shell over its lines, and the small user programs and tests;
-- mkfs.c and the build.
pub mod Prelude
pub mod Kernel
pub mod Spinlock
pub mod Proc
pub mod Strings
pub mod Kalloc
pub mod Pipe
pub mod Trap
pub mod Vm
pub mod Files
pub mod Log
pub mod Fs
pub mod Format
pub mod Console
pub mod Syscall
pub mod Sysfile
pub mod Paths
pub mod Sysproc
pub mod Bcache
pub mod User
pub mod Tests
