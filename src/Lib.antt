-- ===== src/Lib.antt =====
-- NightOS: the parts of the kernel and of its C library that keep state by themselves, modelled from
-- the C sources, with the theorems that make them correct.
--
-- The parts, and how they meet. A ring buffer (libc/kernel/ring_buffer.c) puts readers and writers to
-- sleep on two mutexes (kernel/sys/mutex.c), whose wait queues are those of kernel/proc/process.c. A
-- pseudo terminal (kernel/fs/pty.c) has two ring buffers and a mutex, and edits lines. The hash table
-- (libc/kernel/hashtable.c) compares keys by strcmp of libc/string/string.c. The frame allocator
-- (kernel/arch/amd64/memmgr.c) hands out physical pages, of which the
-- page tables in the same file are made, and kernel/proc/ipc.c keeps the signals of a
-- process. A process has a table of open files (kernel/proc/process.c), on whose handles the system
-- calls (kernel/sys/syscall.c) work through the drivers of the files. The memory functions and
-- long_to_str of libc/string work on a memory of bytes.
--
-- The files.
-- Base: the native numbers, lists, words, bits and integers, and Run, the result of code that may
--   return, fault, sleep for good or need more fuel. Base.Bits reads the digits of a word.
-- RingBuffer: ring_buffer_create, writeable, available, write, read, pop, peek, read_last and
--   discard_readable, each under its own name without the prefix, on the record CircularBuffer. Below
--   it, Inv is the invariant, Contents the bytes held in order, Bytes the loops, Wake the wake-ups,
--   Write, Read and Ends are about the operations, and Refine sets them against Fifo, a bounded queue.
-- Mutex: the critical sections of mutex_acquire, mutex_acquire_if_free, mutex_wait and mutex_release.
--   Protocol lets any number of processes take them in any order in which each of them finishes the
--   call it is in, and mutex_release may be called by a process that does not own the mutex, as the
--   code has no test for the owner. Exclusion is about the runs in which only the owner releases it,
--   and about a release by another process; LostWakeup is about any run.
-- Hashtable: hash and the ht_ functions over chains of entries; Chains and Slots are about one chain
--   and the array, Laws about the operations, and Refine about sequences of them.
-- Frames: memory_map, its cursor idx, kalloc_frame and kfree_frame. Alloc and Free are about one call,
--   Holders about all sequences of calls and who holds what.
-- Paging: the page tables of kernel/arch/amd64/memmgr.c: memmgr_create_or_get_page, its raw sister,
--   memmgr_map_frame_to_virtual, memmgr_check_user, memmgr_delete_page and munmap, each under its own
--   name without the prefix, on a Machine of frames. Words is about entries, Tables labels the frames
--   that are tables and has the reference walk, Grow and Descend are about one level, Leaf, Map and
--   Create about all four, Lookup about reading, Unmap about taking out.
-- LinkedList: the operations of libc/kernel/list.c, each under its own name without the prefix, on
--   entries in memory. Chain is about linked entries, Delete, Insert, Remove and Find about the
--   operations, and Refine sets sequences of calls against the sequence of the values.
-- Tree: tree_create, tree_set_root_node, tree_calculate_height, tree_insert_child, tree_remove and
--   tree_find_child of libc/kernel/tree.c. A node is known by its position. Find, Insert and Height are
--   about the operations, Siblings about a list of children.
-- Vfs: resolve_path of kernel/fs/vfs.c on the tree of files, with get_child and cache_node. walk is
--   the loop over the path, cwd_walk the one over the working directory, and each part of a round is a
--   function. Names is about strtok_r on a path, Ends, Lookup, Missing and
--   Cwd about resolve_path. Mount has mount_directly, and Grow and Mounted are about it.
-- Scheduler: schedule, get_next_process, schedule_process, sleep, wakeup_sleeping and wakeup_now of
--   kernel/proc/process.c on the run queue and the sleeping queue, two sequences of processes. Rotate
--   is about schedule, Accounts about where a process is, Calls about sequences of calls, and Waking
--   about the two wake-ups.
-- Fat: fat_get_next_cluster, fat_update_fat, fat_find_free_cluster, fat_read_file_data and fat_read of
--   kernel/fs/fat.c, on a disk of words. The reads of a file are the addresses and lengths that the
--   device is asked for. Entries is about the table, Free about the search in it, and Reading about a
--   file along its chain of clusters.
-- Descriptors: the table of open files of kernel/proc/process.c: process_open_fd, process_close_fd,
--   sys_close, and the loops of process_execve and process_exit. Slots is about the array, Inv and
--   Close about opening and closing, Reach about all sequences of them, Release about the two loops.
-- Syscalls: the calls of kernel/sys/syscall.c on an open file, with read and write of kernel/fs/vfs.c;
--   the functions of the drivers that a file names are the record Drivers, an argument. Found is about
--   a slot in use, Reading, Vectors and Dup about sys_read, sys_readv and sys_dup, and Outside about
--   numbers beyond the table.
-- Str: strlen, strcmp, strncmp, strchr, strcspn, strspn, strpbrk, strstr and strtok_r on lists of
--   bytes; Compare, Search and Tokens are their theorems.
-- Mem: memcpy, memmove, memset, memcmp and memchr on a memory that gives each address its byte. Copy is
--   about those that write, Compare about those that read.
-- Decimal: long_to_str of libc/string/string.c on the same memory; Digits is about its loops, Print
--   about the whole.
-- Signals: the sigset functions, the mask, and sending and delivery. process_exit and
--   process_enter_signal do not return, so that the loop of process_check_signals ends there; a process
--   that is stopped sleeps until a signal is pending. Sets reads an array of words as a set, Mask is
--   about process_set_signal_mask, Round about sending and about one signal that is delivered, and
--   Delivery about the loop.
-- Pty: the line discipline. Newline is about find_newline, Echo and Typing about one byte of
--   pty_write_to_input, Lines about a call of it, and Reading about pty_slave_read.
--
-- How C is read. An index outside an array is a fault, but memory_map is read and written outside as
-- well, in the memory that lies there. Pointers to stored values are numbers. The casts between int
-- and size_t are written out modulo 2 ^ 32 and 2 ^ 64. What a sleeping process finds when it wakes is
-- an argument: a list of functions that say what the others did meanwhile. An entry of a list that
-- was freed faults in LinkedList, but the scheduler reads such entries, and there they keep what was in
-- them. find_dir of a driver is a function of the file and the name, without state or effect.
--
-- Fuel. The loop of kalloc_frame is given two passes over the array and the word behind it, the most
-- that its restart allows. The loops of the ring buffer are given the bytes to write, or max + 1
-- rounds, one more than a buffer can hold. The loop over a path is given one round more than the path
-- has bytes, the one over the working directory a number of rounds that is an argument. long_to_str is
-- given 64 digits, more than a long has. The loop of process_exit is given one round more than the
-- table has slots, the loop of process_execve one for each slot.
-- fat_read is given one round more than there are bytes to skip or to read. A loop that
-- sleeps is given one round more than there are wake-ups.
--
-- Not modelled: the spin locks, whose sections are the steps; allocation failures; the messages that
-- the code prints; the mark `cached` of files; the file nodes of a pseudo terminal; the stack frame of
-- a signal handler, and signals that are sent between the rounds of process_check_signals;
-- mutex_acquire_timeout; drivers whose find_dir sleeps, faults or keeps state; and the parts of the
-- kernel that drive devices, the other file systems, the life of a process and the other system calls.
pub mod Base
pub mod Frames
pub mod Mem
pub mod Decimal
pub mod Paging
pub mod Mutex
pub mod Fifo
pub mod RingBuffer
pub mod Pty
pub mod LinkedList
pub mod Tree
pub mod Vfs
pub mod Fat
pub mod Descriptors
pub mod Syscalls
pub mod Scheduler
pub mod Str
pub mod Signals
pub mod Hashtable
