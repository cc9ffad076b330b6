-- ===== src/Lib.antt =====
-- Verification of the programs of this repository: a proxy server with a priority queue
-- (private/P6/starter-code), the priority scheduler of an xv6 kernel (private/P4/xv6-public), a
-- log-structured file system (private/P7), the formatter of manual pages and their lookup (private/P1), a
-- shell (private/P3/wsh.c), and the pipes, the buffer cache and the log of the xv6 kernel
-- (private/P2/initial-xv6/src).
--
-- Base: shared names, lists as C arrays, signed integers, and `Run`, the outcome of a piece of C: a
--   value, a fault (undefined behaviour), or the end of the process.
-- CString: strtok, strcmp, strrchr and atoi on strings as lists of bytes that are not NUL. CString/Tokens
--   has the loop of strtok calls; its fuel is the length of the text and one, and each call shortens
--   the text.
--
-- Proxy, private/P6/starter-code:
--   Proxy/Queue: safequeue.c, `create_queue`, `copy_info`, `add_work`, `dequeue`, `get_work` and
--     `get_work_nonblocking` under their names. The array is a list of `capacity` items; a string is a
--     value that its field owns, or dangling after `free`. The loops of `add_work` and `dequeue` are
--     `sift_up` and `sift_down`, on fuel that exceeds the index and the size. Order, Insert, Down, Remove
--     prove.
--   Proxy/Request: `parse_request` and `get_priority_from_path` of proxyserver.c.
--   Proxy/Http: the responses of proxyserver.h, and `http_send_data` on the answers that `write` gives, with
--     the bytes that these calls take (`taken`).
--   Proxy/Server: one round of `serve_forever` (`handle_request`), `serve_request` on the answers of
--     `connect`, `recv` and `write`, and the steps of listeners and workers on the shared queue. A critical
--     section of the mutex is one step. Allocation is taken to succeed.
--
-- Sched, private/P4/xv6-public:
--   Sched/Table: `struct proc`, `ptable` and the functions of proc.c on it; a pointer to a process is
--     the index of its slot. The results of `kalloc` and `copyuvm` are arguments. `fork` and `allocproc`
--     leave the lock in between, and are made of the sections `reserve`, `give_stack`, `copy_process`
--     and `publish`; a pid that leaves the range of `int` is a fault.
--   Sched/Select: the choice of `scheduler`; Sched/Clock: the timer interrupt of trap.c,
--     `priorityupdate`, `cpuupdate`, `nice`, `getschedstate`; Sched/Clock/Sleep: `sys_sleep`;
--     Sched/Life: the numbering of processes. Sched/Boot: `userinit`, and the critical sections that the
--     processes and the scheduler run in any order after it; Sched/Family and the modules below it are
--     about the parents and the process on the CPU; Forking about a `fork` that nothing comes between.
--   One CPU is modelled, and every section that holds `ptable.lock` is one change of the state; in the
--   sequences of Sched/Boot anything may come between the sections of a `fork`.
--
-- Wfs, private/P7:
--   Wfs/Disk: the log of wfs.h and the lookups of mount.wfs.c, under their names. The bytes from the
--     superblock to `head` are a list of entries, a pointer to an entry is its position, and the bytes
--     from `head` on are a function of the address.
--   Wfs/Ops: `wfs_getattr`, `wfs_mknod`, `wfs_mkdir`, `wfs_read` and `wfs_write`. Sums of `unsigned
--     int` wrap. `make_node` is what `wfs_mknod` and `wfs_mkdir` have in common. Wfs/Names:
--     `wfs_readdir`, `wfs_unlink`, and `initialize_fs` of mkfs.wfs.c.
--   Wfs/Fsck: fsck.wfs.c on the bytes of the mapped image, `inodenum_to_logentry` as
--     `logentry_address`, `find_max_inodenum` as `max_inodenum`, the loop of `main` as `compact`. A scan
--     has `head` and one as its fuel, since a step passes 44 bytes or more; the loop of `main` has a
--     round for each inode number up to the greatest, and one more to end. Scan, Ordered, Rounds and Compact prove.
--   Wfs/Layout, Valid, Lookup, Directory, Create, Write and Unlink prove.
--
-- Groff, private/P1/wgroff.c: `toUpper`, `dateCheck`, `replaceStr`, `process_line` and `main` on the
--   lines of the input. The loop of `replaceStr` has the length of the text and one as its fuel, and
--   each round shortens the text. Groff/Replace and Groff/Layout prove.
--
-- Manual, private/P1: Lookup has wman.c, whose `main` is `wman`; Search has wapropos.c, whose
--   `searchFileForKeyword` is `search_file`, with its loop as `search_lines`. The loops over the nine
--   sections count down. Found and Sections prove.
--
-- Shell, private/P3/wsh.c: the job list, `executeCommand` (`execute_command`, with `dispatch` for the
--   commands), the lines of `main`. Shell/Pipeline has `execute_with_pipe` (`pipeline`); its loop has one
--   more round than there are arguments as fuel, and each round passes a bar. Shell/Numbers and
--   Shell/Jobs are about the numbers of the jobs.
--
-- Kernel, private/P2/initial-xv6/src (P4 and P5 have the same files):
--   Kernel/Pipe: pipe.c. A critical section of `pipewrite` or `piperead` runs to its end or to its
--     `sleep`. Fifo has the queue of a pipe's bytes, Abstract the abstract pipe, Refine its
--     refinement, History the sequences.
--   Kernel/Cache: bio.c, as the list of buffers from the most recently used one on. Recycle, Reuse and
--     Change are about one buffer that is reused or changed; Transparent about `bread`, Write about
--     `bwrite`, Release about `brelse`, Session about their sequences.
--   Kernel/Log: log.c. The buffer cache is what `bread` shows and the list of disk writes in order, each
--     of one block, so a crash keeps a prefix of that list. Disk, Writes, Crash and Atomic are about
--     commit and recovery; Steps and Space are about `begin_op`, `log_write` and `end_op`, which count
--     the blocks.
--
-- Mmap, private/P5/xv6-public: vm.c (the page table and its loops, in Mmap), `mmap` and `kmunmap` of
--   proc.c and `sys_mmap` of sysproc.c (Mmap/Calls; `sys_munmap` has the statements of `kmunmap`), the
--   page fault of trap.c (Mmap/Growth), and the loop of `exit` over the 32 mappings (`unmap_all`, in
--   Mmap/Exit). A page table is a test for each 1024 pages and an entry for each
--   page; frames are counted. `find_free_region` has one round more than there are pages between MMAPBASE
--   and KERNBASE, and `deallocuvm` as many as there are pages. Regions, Filling, Pages, Undo, Fork, Slots,
--   Anonymous, Unmap, RoundTrip, Valid, Backed and Session prove.
--
-- Not modelled: sockets, threads below the granularity of the mutex, the command lines, the
-- files of the kernel, and the other programs of the repository.
pub mod Base
pub mod Proxy
pub mod CString
pub mod Sched
pub mod Wfs
pub mod Groff
pub mod Manual
pub mod Kernel
pub mod Mmap
pub mod Shell
