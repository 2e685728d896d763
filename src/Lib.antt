-- ===== src/Lib.antt =====
-- A verification library for the kernel and the tools of ztl_os, a small Unix (src/*.c).
--
-- Parts
-- * src/log.c, the write-ahead log of the file system: `Log`. A block is its words; the buffer cache
--   is what `bread` returns for a block number, and `bwrite` puts a block on the disk whole or, when
--   the power has failed, not at all. The power is a count of the block writes that still reach the
--   disk, chosen by the environment. `Log/Copies`, `Header`, `Steps`, `Recovery` and `Phases` carry
--   the proofs of `Log/Restart` and `Log/Crash`; `Log/Operations` has the concurrent operations as
--   steps, `Log/Absorb`, `InLog`, `Admission` and `Overflow` what they do to the log.
-- * src/bio.c, the buffer cache, with `iderw` of src/ide.c and the sleep locks of src/sleeplock.c:
--   `Buffers`. `Buffers/Ring` and `Order` are about the circular list, `Buffers/Walks` and `Get` about
--   the loops of `bget`; `Buffers/Once`, `Contents`, `Coherence` and `Calls` about what is in the
--   buffers; `Buffers/Users` has the processes that share the cache as steps, each of
--   which can hold several buffers, and `Buffers/Shared`,
--   `Preserved`, `Start` and `Exclusive` what holds of them. `Log` has its own view of a block.
-- * src/ide.c, the queue of requests to the disk: `Disk`. `Disk/Queue` is about the list in memory,
--   `Disk/Runs` about requests and interrupts.
-- * src/pipe.c, pipes: `Pipe`. `Pipe/Window` relates the two counters, which wrap at 2 ^ 32, to the
--   bytes held; `Pipe/Refine` and `Pipe/Fifo` state what the calls do.
-- * src/spinlock.c, `pushcli`, `popcli`, and spin locks: `Spinlock`. Each access that changes a lock
--   is a step of one CPU (the reads of `holding` are part of the step they begin), and a schedule lists
--   the CPUs in the order of their steps. `Spinlock/Nesting` is about
--   nested `pushcli`, `Spinlock/Exclusion` about several CPUs.
-- * src/kalloc.c, the allocator of physical pages: `Kalloc`. `Kalloc/Chain` has the list of free
--   pages in memory, `Kalloc/Range` the start-up, `Kalloc/Heap` the allocator with its clients.
-- * src/console.c, the buffer of typed lines: `Console`. `Console/Window` and `Console/Edit` relate it
--   to what was typed; `Console/Typed`, `Console/Read` and `Console/Wakes` are about the handler of
--   the keyboard and about reading.
-- * src/grep.c, the matcher of regular expressions: `Grep`. `Grep/Language` says what an expression
--   means, `Grep/Star` and `Grep/Correct` compare the matcher with that.
-- * src/file.c and src/sysfile.c, open files and descriptors: `Files`. `Files/Count` counts the
--   descriptors that stand for a file, `Files/Opened` is about the calls that change the counts.
-- * src/syscall.c, the arguments of system calls: `Syscall`. `Syscall/Inside` and `Syscall/Argument`
--   say what is read and what is returned.
-- * src/string.c, memory and fixed-width names: `Strings`, with `Strings/Move` and `Strings/Names`.
-- * src/printf.c, the printing of src/console.c, and `atoi` of src/ulib.c: `Print`. `Print/Digits` and
--   `Print/RoundTrip` are about numbers, `Print/Formats` compares the two `printf`s.
-- * src/fs.c, blocks and the contents of files: `Fs`, with `Fs/Transfers` for `readi` and `writei` and
--   `Fs/Release` for `itrunc`. `Fs/Blocks` is about the free map, `Fs/Mapped`, `Extend`, `Slots`,
--   `NewList` and `Map` about the blocks of a file; `Fs/Read`, `Laid`, `Stored`, `Write`, `Written`
--   and `RoundTrip` about its bytes; `Fs/Freed`, `Truncate` and `Truncated` about giving blocks back;
--   `Fs/Later` says which blocks a file takes when it grows, `Fs/Stores` that an inode on the disk is
--   the one in memory. Calls of `log_write` are taken to succeed there: its panics are in `Log`.
-- * src/fs.c, the splitting of paths: `Paths`. `Paths/Element` says what one call of `skipelem` takes,
--   `Paths/Walk` what the calls of a loop give.
-- * src/fs.c, the cache of inodes: `Inodes`. `Inodes/Scan` and `Inodes/Counted` are about its places
--   and their counts, `Inodes/Get`, `Put`, `Lock` and `Alloc` about the calls. A freed inode's
--   blocks go through `itrunc` of `Fs/Release`.
-- * src/fs.c, directories: `Dirs`. `Dirs/Entries` is about the loop of `dirlookup`, which reads by
--   `readi` and compares by `strncmp`, `Dirs/Lookup` about the call, which ends in `iget`.
-- * src/sh.c, the parser of the shell, and `strchr` of src/ulib.c: `Shell`, with the recursive descent
--   in `Shell/Parser`. `Shell/Suffix` and `Shell/Tokens` are about pointers into the line and tokens,
--   `Shell/Words`, `Loops` and `Sound` about what the descent returns, `Shell/Buffer` and
--   `Shell/Arguments` about `nulterminate` and the strings that it leaves. `Shell/Printer` writes
--   command lines out and says what they mean, `Shell/Printed` and `Shell/Heads` are about their
--   tokens, and `Shell/Stretches` and `Shell/RoundTrip` go through the parser on them (`Shell/Right`).
-- * `Base` has the names and lemmas that the parts share.
--
-- How the code is read
-- * A stretch of code under one spin lock is one function: it runs from where the lock is taken to
--   where it is let go, by a return or by `sleep`. A call that is woken runs the function again.
-- * Numbers are natural numbers; `uint` arithmetic that can wrap is written modulo 2 ^ 32. Arrays of
--   a fixed size are functions of the index.
-- * A loop is a recursion on the rounds that are left, or on the data that it goes through, so that
--   no fuel is needed, with these exceptions: `freerange` has as many rounds as there are addresses
--   below its end, the loop of `C('U')` one for each byte of the buffer, the outer loop of `balloc`
--   one for each block, and `readi`, `writei` and `dirlookup` one for each byte, each of which
--   goes on by at least one; `parsecmd` four calls for each byte of the line and five more,
--   the loops of `bget` one for each buffer and one more, the loop of `iderw` one for each buffer.
-- * A panic of the kernel is `none`, or a constructor of the result.
-- * One disk device, but for the buffer cache. Disk errors are not modelled, and in `Buffers` a request
--   to the disk runs to its end before the next one. `acquire` and `release` are not part of the
--   models that run under a lock.
--
-- Not modelled: devices as files, `dirlink` and the walk along a path; processes, virtual memory,
-- what the shell does with a parsed command, `pipealloc`; assembly and boot code, device registers
-- and interrupt controllers, the user programs that only call others, generated tables.
pub mod Base
pub mod Buffers
pub mod Disk
pub mod Pipe
pub mod Log
pub mod Spinlock
pub mod Kalloc
pub mod Grep
pub mod Console
pub mod Files
pub mod Syscall
pub mod Strings
pub mod Print
pub mod Fs
pub mod Paths
pub mod Inodes
pub mod Dirs
pub mod Shell
