-- ===== src/Lib.antt =====
-- The kernel of this xv6 for RISC-V as a model of its C code, with the theorems about it. Paths are from
-- the repository's root; kernel/ stands for xv6-riscv-riscv/kernel/.
--
-- The parts and their files. Each file of a part proves what its first line says, and Tests holds concrete
-- runs and the examples of the theorems.
-- - Prelude: native numbers, the 32-bit int of C with its wrap-around (Int), arrays as lists (Lists),
--   Boolean tests (Tests), routines that return or panic (Panics).
-- - Kalloc: kernel/kalloc.c. `kinit`, `freerange`, `kfree`, `kalloc`, `krefpage`, `kunrefpage` and
--   `krefcount` over a memory of which the first word of each page is kept: the links of the free list.
-- - Proc: the process table and the schedulers. Types has `struct proc`, the queues and the channels; Mlfq
--   the queues of kernel/scheduler_ext.c; Table the walks over the table of kernel/proc.c and the
--   priority calls of kernel/sysproc.c; Select the three policies and a round of `scheduler`; Switch
--   `yield`, `sleep` and `clockintr` (kernel/trap.c); Wait `kwait`. Sleepers and Starvation carry the proofs about who
--   sleeps and who can be run.
-- - Sync: kernel/sync_primitives.c without its producer-consumer example, over `sleep` and `wakeup` of
--   Proc. Steps collects the calls on an object as steps of a process.
-- - Log: kernel/log.c. The writes to the disk come out as a list, so that a crash is a prefix of it.
-- - Bio: kernel/bio.c and kernel/sleeplock.c, the buffer cache as a list in its order of use.
-- - Pipe: kernel/pipe.c, a ring with 32-bit counters, over `sleep` and `wakeup` of Proc.
-- - Console: the input of kernel/console.c, over `sleep` and `wakeup` of Proc. Lines shows the ring as the
--   whole lines and the one that is being typed; Typed and Read prove what a character and a read do to
--   them, Calls what the interrupt and the call do, RoundTrip what comes out of a line that is typed.
-- - Spinlock: kernel/spinlock.c with the interrupts of the CPUs. Counted is the invariant on `noff`, Turns what the
--   CPUs do in turn.
-- - Ring: the ring of bytes that Pipe and Console share.
-- - File: kernel/file.c, the descriptors of kernel/sysfile.c (`argfd`, `fdalloc`, dup, close, pipe and the end of open)
--   and the loops of `kfork` and `kexit` over them. Uses counts who has a file; Counted is the invariant, Refs,
--   Descriptors, Calls, Pipes and Forks keep it, and Runs is any history of calls from boot.
-- - Strings: kernel/string.c over a memory of bytes.
-- - Radix: trees of numbered nodes, which page tables and the index blocks of a file are; Grow adds a node.
-- - Vm: kernel/vm.c. Page tables with `walk`, `mappages` and `walkaddr`; Memory has the routines that grow,
--   shrink and copy a process's memory and handle its page faults, Copy the copies between user and kernel.
--   Tree is the invariant and the abstract view, the entry of each address; Walk, Entry, Lookup, Map and
--   Cow prove what the routines do to the view; UserBytes, CopyIn, CopyOut and Written what the copies
--   deliver, and CopyTests has their runs.
-- - Fs: kernel/fs.c. The bitmap and the block tree of a file (`balloc`, `bfree`, `bmap`, `itrunc`), with
--   Alloc, Tree, Reach and Bmap about them; Data is `writei` and `readi`, with Written, Write, Read and
--   RoundTrip; Inodes the inode table, with Scan and Unique; Path is `skipelem`, with Path/Components.
--
-- How the code becomes a model. A critical section of a spinlock is one step. A routine that switches to
-- another process is two functions: what it does up to the switch, and `..._resume` or `..._end`, what it
-- does when it is scheduled again. A pointer to an element of a static table is its number. A loop over a
-- table is recursion over the table or its rounds; `freerange` alone has fuel, one round for each page
-- below its end and one more, and it panics without, so that a result shows that it was enough; `writei`,
-- `readi`, `copyin`, `copyinstr` and `copyout` have a round for each byte, of which they need at most as
-- many, `balloc` one for each bitmap block, and the loop of C('U') one for each byte of the open line.
-- The bounds are the code's: NPROC 64, NOFILE 16, five levels, PIPESIZE 512, INPUT_BUF_SIZE 128, LOGBLOCKS 30,
-- NBUF 30, 128 MB of RAM; the number of open files of the system is a parameter.
--
-- Assumed of what is outside: the disk writes one block as a whole and in order; in Pipe, Console
-- and Fs the copies from and to the user are functions that say which bytes can be read or written; `end`, which the linker
-- script defines, is a field of the allocator's state. In Kalloc no spinlock section is interleaved, and a
-- process is not killed while a pipe call holds the pipe's lock.
--
-- In Vm the tables, the other pages and the allocator's view of a free page are three views of the RAM, and an
-- entry is its flags and its address; in Fs a block that is read or written is the block of the buffer cache, and
-- `either_copyin` and `either_copyout` are functions that say whether a copy succeeds, which depends on its place and
-- its length only, and what it leaves. Log and Fs do not share a state: in Fs a block that is logged is noted, and the
-- panics of `log_write` (kernel/log.c), outside a transaction and when the log is full, are those of Log, so that what
-- is proved of `balloc`, `bmap`, `writei` and `readi` is about calls in a transaction with room in the log. In Proc a
-- round of `scheduler` is two steps, the selection under the lock of the queues (`select_next_proc`) and the dispatch
-- under the lock of the process (`dispatch`), and `schedule` is both with nothing in between.
--
-- Not modelled: of kernel/fs.c `ialloc`, `ireclaim`, the directories and `namex`; of kernel/vm.c the
-- kernel's own table; the reads and writes of kernel/file.c and the calls on paths of kernel/sysfile.c;
-- program loading, the dispatch of the system calls, traps but for the clock, devices, the output of the
-- console, assembly, user programs.
pub mod Prelude
pub mod Kalloc
pub mod Proc
pub mod Sync
pub mod Log
pub mod Pipe
pub mod Bio
pub mod Strings
pub mod Radix
pub mod Vm
pub mod Fs
pub mod File
pub mod Ring
pub mod Console
pub mod Spinlock
