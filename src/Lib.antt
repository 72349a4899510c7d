-- ===== src/Lib.antt =====
-- A model of MY-UNIX, a Unix-like kernel for x86-64 in C, with the theorems that make its parts correct.
--
-- The program's parts. mm/pmm.c hands out physical pages; mm/vmm.c maps them and mm/heap.c cuts them up.
-- proc/sched.c keeps the run queue and switches between processes; proc/process.c keeps process numbers,
-- descriptor tables, signals and the process tree. fs/vfs.c, fs/tmpfs_devfs.c hold files; main.c holds the
-- string functions, the pipes and the console; proc/syscall_impl.c offers all this to user programs.
--
-- What is modelled, and where:
--   Base: bits of words, 64-bit arithmetic, page alignment (include/types.h), lists, error numbers.
--   Pmm: mm/pmm.c. Pmm.Pmm holds the statics and the contents of the frames; alloc, alloc_zone, alloc_n, free,
--     free_n, reserve_region, add_region are pmm_alloc and so on; Pmm/Init is pmm_init_from_multiboot.
--     Pmm/Inv states that the counters agree with the bitmap.
--   Vmm: mm/vmm.c. Vmm itself has the regions (VMAs) of an address space; Vmm/Tables the page tables, held in the frames
--     of Pmm, with get_pte, map, unmap, protect and virt_to_phys; Vmm/User has vmm_alloc_user and vmm_free_user;
--     Vmm/Spaces has vmm_create_space, clone_space and destroy_space. The page tables are seen as a tree (Tables/Tree):
--     a page is a table of one level, and one entry points to it; the proofs carry which page is what (Shape).
--     Tables/Large is about large pages. Vmm/Access is access_ok and the copies between user memory and the kernel.
--   Heap: mm/heap.c over Pmm. Heap has slab_alloc, slab_free, heap_grow, kmalloc, kfree; Heap/Cache is about the slab
--     caches, Heap/Fit about the best-fit search, Heap/Split about a block that was split, Heap/Rounds about the end of
--     kmalloc's retry loop.
--   Kernel: the fields of process_t (include/process.h) and the globals that the scheduler works on.
--   Sched: proc/sched.c. Sched/Runq is run_queue_t with runq_push, runq_pop_best, runq_remove; Sched has sched_add,
--     sched_remove, sched_yield and schedule. The specification is the order in which processes are served.
--     Sched/Wait is wait_queue_t with wq_wait, wq_wake_one, wq_wake_all, and proc_wake of proc/process.c.
--   Process: proc/process.c. Process/Pid is the table of process numbers with pid_alloc; Process/Fd has the
--     descriptor tables, with file_get and file_put of fs/vfs.c.
--   Signal: signal_send, signal_handle and the masks of proc/process.c, and sched_tick.
--   Exit: proc_exit and proc_wait of proc/process.c; the descriptor table of the process stands beside the Kernel.
--   Pipe: the pipes of main.c. Pipe/Ring shows that the ring is a queue of bytes; Pipe/Flow has all interleavings
--     of a writer, readers and the closing of ends as a step relation.
--   Vfs: fs/vfs.c, with the operations of a file system (vnode_ops) as a record of functions. Vfs has the references to
--     vnodes and vfs_lookup, Vfs/Open has vfs_lookup_parent and vfs_open. Vfs/Path takes a path apart into its components;
--     Vfs/Initrd reads the initrd archive; Vfs/Refs counts the references that a lookup takes and gives back.
--   Tmpfs: the contents of files in fs/tmpfs_devfs.c, with tmpfs_read, tmpfs_write and tmpfs_truncate; the specification is a
--     sequence of bytes. What krealloc gives is an argument there. Tmpfs/Dir has tmpfs_lookup and tmpfs_unlink, and fills
--     the interface that Vfs asks of a file system.
--   Syscall: proc/syscall_impl.c. Syscall/Fd has the calls on descriptors over Process/Fd; what the operations of files
--     return, and what vfs_open and pipe_create give, are arguments.
--     Syscall/Memory has brk, mprotect, munmap and anonymous mmap over Vmm, with the loop of brk in Memory/Extend and
--     Memory/Served; Syscall/Signals has rt_sigaction and
--     rt_sigprocmask; Syscall/Info is the table of calls with syscall_dispatch, and Syscall/Init what syscall_init registers.
--   Strings: the string and memory functions of main.c.
--   Elf: elf_check_header and the initial stack of elf_load in proc/elf.c.
--
-- How the parts interact: Signal and Exit work on the same Kernel record as Sched; Exit closes descriptors through
-- Process/Fd, sends SIGCHLD through Signal, wakes the parent through Sched/Wait and ends in schedule. Tmpfs/Dir is
-- a file system of Vfs; Syscall/Fd works on Process/Fd, Syscall/Memory on Vmm and Pmm.
--
-- How: state is a record, a routine is a function from the state to the state and its result. A routine that
-- takes a spinlock for all of its work is one step. PANIC is a result of its own (Base/Outcome). A pointer to
-- a process, a file or a wait queue is a number, and 0 is NULL. An intrusive list is the list of the elements
-- on it; linking a linked node or unlinking an unlinked one is the outcome `corrupted` of Sched/Wait. uint64_t sums wrap at 2^64.
--
-- Loops are structural recursion on what is left to do. The loop of pid_alloc, which the code bounds only by its
-- cursor coming round, runs on fuel of 65536 rounds, the size of the table; that this is enough is part of its
-- theorem. The retry loop of kmalloc runs on rounds; one more than there are free pages is enough, since each round
-- but the last takes pages. vfs_lookup runs on one round for each byte of the path and one more, vmm_alloc_user's search on
-- one for each page of user memory and one more, the archive's loop on one for each header that fits and one more.
--
-- Not modelled: the console and printk, the interrupt and descriptor tables and the assembly (hardware), and so
-- far mounting, making files in a tmpfs, the loading of ELF segments, fork, and part of the system calls. What
-- proc_destroy gives back of a reaped process, and the bytes of a signal frame in user memory, are left out.
pub mod Base
pub mod Pmm
pub mod Vmm
pub mod Heap
pub mod Kernel
pub mod Sched
pub mod Process
pub mod Signal
pub mod Exit
pub mod Pipe
pub mod Strings
pub mod Elf
pub mod Vfs
pub mod Tmpfs
pub mod Syscall
