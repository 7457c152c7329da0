-- ===== src/Lib.antt =====
-- xv6 with nice values: the crash-safe log, the buffer cache, the file table, the process table, the
-- locks, the pipes, the page allocator, the blocks and inodes of the file system and the arguments of
-- system calls of the kernel in xv6-public/, and a little of its user library and programs.
--
-- How the parts fit. File system calls bracket their writes by `begin_op` and `end_op` (log.c); the
-- last one out commits all of them at once through the buffer cache (bio.c). Processes live in one
-- table (proc.c), whose functions sleep and wake up on channels; pipes (pipe.c) use both. Spin locks
-- (spinlock.c) make each critical section atomic: so one function of a model is what the code does
-- between taking the lock and giving it up, by returning or by going to sleep, and what it does
-- without the lock before or behind is a function of its own. Pages for kernel stacks and pipes come from the free list of kalloc.c.
--
--   Prelude        the names shared by all files: Boolean tests on the native numbers, lists
--                  indexed by them, 32-bit words (`u32`, `sub32`, signed `int_lt`), and `Outcome`,
--                  which is `returns` or `panics`
--   Disk           xv6-public/bio.c as log.c calls it: `bread` and `bwrite` by block number, over
--                  one disk and its buffers; `crash` loses the buffers. `power` counts the block
--                  writes before a power failure
--   Log            xv6-public/log.c, whole: `install_trans`, `read_head`, `write_head`,
--                  `recover_from_log`, `initlog`, `write_log`, `commit`, `begin_op`, the pieces of
--                  `end_op` and `log_write` with and without the lock; also readsb of
--                  xv6-public/fs.c and the constants of param.h
--     Area, Copy, Install, Header, Finish   what each loop writes, and what it leaves alone
--     Recovery, Commit, Durable             a commit cut short anywhere, and one that completes
--     Slots, Budget, Ending, Transactions   calls that share the log
--   Str            xv6-public/string.c on buffers: safestrcpy, strncpy, strlen, strncmp, memcmp
--     Text                                  the text before the first NUL
--     Bytes        memset and memmove on memory, with the stosb and stosl of xv6-public/x86.h
--       Copying                             what they write
--   Spinlock       xv6-public/spinlock.c: `pushcli`, `popcli`, `holding`, and `acquire` and
--                  `release` as atomic steps of any number of CPUs
--     Nesting, Exclusion                    matched pairs, and mutual exclusion
--   SleepLock      xv6-public/sleeplock.c
--     Holders                               who holds the lock
--   Kalloc         xv6-public/kalloc.c, whole
--     FreeList                              the list of free pages through memory
--   Proc           xv6-public/proc.c and proc.h: the table, `wakeup1`, `kill`, `setnice`, `getnice`
--     Lifecycle    `allocproc`, the pieces of `fork`, `exit`, `wait`, `sleep`, `yield`, the scheduler's choice
--       Unique, Alloc, Exit, Kernel         the table under all calls
--       Orphans, Waiting, Stale             exit, wait and kill
--     Listing      `ps`, with printint of xv6-public/console.c in base 10
--       Lines                               headers and lines
--     Pids, Nice, Wake                      lemmas on the slots, nice values, wakeups
--   Pipe           xv6-public/pipe.c: `struct pipe`, `pipewrite`, `piperead`, `pipeclose`, and what
--                  pipealloc sets up
--     Contents, Stream                      a pipe as a queue, and over a history of calls
--   Cache          xv6-public/bio.c: bget, bread and brelse on the list of buffers
--     Twins, Pinned                         one buffer for a block, and buffers in use
--   Files          xv6-public/file.c: filealloc, filedup, fileclose
--     Handles, Sharing                      reference counts and the handles on each file
--   FileSystem     xv6-public/fs.c, with fs.h: the superblock; the disk inside a transaction
--     Bits         bits of a block of the free map
--     Blocks       `bzero`, `balloc`, `bfree`
--       Scan, Map, Alloc                    the loops, the free map, and what changes
--     Room                                  blocks that still fit in the transaction
--     Inodes       `struct inode`, `iupdate`, `ilock`, `bmap`
--       Slots, Bmap, Words, OnDisk          blocks of a file, and inodes on the disk
--     Paths        `skipelem`, `namecmp`
--       Elements                            the pieces of a path
--     InodeCache   `iget`, `ialloc`, `idup`, `iput`, `itrunc`, `stati`
--       Counts, Fresh, Drop                 entries, new inodes, and references
--   Syscall        xv6-public/syscall.c and syscall.h: `fetchint`, `fetchstr`, `argint`, `argptr`,
--                  `argstr`, `syscall`
--     Bounds, Choice                        accepted pointers, and numbers of calls
--     Descriptors  `argfd`, `fdalloc`, `sys_dup`, `sys_close` of xv6-public/sysfile.c
--       Counts                              reference counts under these calls
--   Vm             xv6-public/vm.c: `walkpgdir`, `mappages`, `uva2ka`, with the macros of mmu.h
--     Flags                                 flags in an entry
--     Entries, Growth, Spare, Mapping, Ranges, Lookup   what the tables map when they change
--   Console        xv6-public/console.c: `consoleintr` and `consoleread`
--     Lines, Erasing, Typing, Reading       finished lines and the one that is edited
--   Grep           xv6-public/grep.c: `match`, `matchhere`, `matchstar`
--     Meaning                               expressions as parts that read text
--   User           xv6-public/printf.c and ulib.c: printint and atoi
--     Numbers                               printing a number and reading it back
--     Text         strcpy, strcmp, strchr of ulib.c
--       Compare                             the text before the NUL
--   Tests          the theorems at concrete inputs
--
-- Correspondence. A pointer into a table is an index, an `int` or `uint` is its 32-bit pattern, and
-- `int` comparisons go through `int_lt`. A block of the disk is its 32-bit words. A function that can
-- sleep says so in its result, and its caller starts its loop again. Function names are those of the
-- source; `write`, `read` and `close` of Pipe are pipewrite, piperead and pipeclose,
-- `exit_from` is exit, `wait_round` is one round of wait, and `go_to_sleep` and `wake_up` are the
-- two halves of sleep.
--
-- Bounds. Loops recur on their rounds or on the table. `freerange` has fuel for 2 ^ 20 rounds, which
-- is all pages of a 32-bit address space, as has `mappages`, and `printint` for 32 digits, the most
-- that a word has in any base. The outer loop of `balloc` has a round for each block of the disk,
-- more than the map has blocks.
--
-- Not modelled: binit, fileread, filewrite and filestat, readi, writei, directories and the lookups
-- of namex in fs.c, the rest of vm.c, the other system calls, traps, devices, program loading,
-- umalloc.c, user programs, mkfs, and the exercises in homework/ and project/: they are devices, or
-- wait for the layers below them. The weak memory of the machine is not either: the steps of Spinlock are sequentially consistent, as
-- `__sync_synchronize` makes them.
mod Prelude
pub mod Disk
pub mod Log
pub mod Str
pub mod Spinlock
pub mod SleepLock
pub mod Kalloc
pub mod Proc
pub mod Pipe
pub mod Cache
pub mod Files
pub mod User
pub mod FileSystem
pub mod Vm
pub mod Console
pub mod Grep
pub mod Syscall
mod Tests
