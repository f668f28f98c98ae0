-- ===== src/Lib.antt =====
-- LufiraOS, a hobby kernel for x86-64: the parts that keep memory, processes, messages, users, files
-- and input.
--
-- The parts and how they interact:
-- - Pmm (Pmm.antt and Pmm/): the physical memory manager, kernel/system/mm/pmm.c. The state is the
--   record `Pmm`: the bitmap as a list of bytes, `total_pages`, `used_pages`, `next_free_page`.
--   `pmm_init` is `init`, with its loops `max_phys`, `choose_block`, `free_conventional`, `reserve`
--   and `count_used`; `none` is the halt when no block holds the bitmap. `pmm_alloc_page` is
--   `alloc_page`, `pmm_alloc_contiguous_pages` is `alloc_contiguous_pages`, `pmm_free_page` is
--   `free_page`. Pmm/Bitmap: bits of the bitmap; Pmm/Search: the two searches; Pmm/Count: the count
--   of used pages; Pmm/Inv: valid states.
-- - Heap (Heap.antt and Heap/): the kernel heap, kernel/system/mm/heap.c. Memory is a function from
--   addresses to block headers, so that links, splitting and merging are those of the code.
--   Heap/Chain relates the headers to a list of blocks, Heap/Blocks gives the list operations that
--   the code is compared with, Heap/Alloc and Heap/Free are about splitting and merging.
-- - Shm (Shm.antt and Shm/): shared memory regions, kernel/system/mm/shm.c, whose last
--   release gives pages back to Pmm.
-- - Mailbox (Mailbox.antt and Mailbox/): messages between processes,
--   kernel/system/ipc/mailbox.c and process_find_by_pid of kernel/system/process/process.c. A
--   call of `mailbox_recv` is a sequence of turns, and what the scheduler does between them
--   is an arbitrary list of events.
-- - Process (Process.antt and Process/): processes, kernel/system/process/process.c. The
--   state is the record `System`: `process_list` as a list from its first process on, the
--   pids of the current process and of the servers, and the counters. Process/Schedule:
--   `schedule`, `switch_to_process` and `process_sleep`; Process/Ending: what `process_exit`
--   and signals share when a process ends, with a message to the window manager's mailbox
--   (Mailbox); Process/Life: creation, exit, wait, exec and reaping; Process/Fork;
--   Process/Foreground; Process/Signal: sending signals, their delivery, and
--   `syscall_handler` of kernel/system/syscall/syscall.c; Process/Tick: the timer of
--   kernel/system/timer/pit.c, with `shell_handle_ctrl_c` of kernel/shell/shell.c. A call
--   that leaves the CPU to another process ends there, and `process_wait_resumed` is what
--   follows. Process/Invariant: the states that can be reached. Memory is granted by a
--   `Grant`, and what `shell_spawner_fn` does is an argument, `spawner`.
-- - Sha256 (Sha256.antt and Sha256/): kernel/lib/sha256.c. Sha256/Stream and Sha256/Final compare
--   `sha256_update` with taking in byte by byte, Sha256/Padding is about `sha256_final`, and
--   Sha256/Constants about the initial words and the constants of the rounds.
-- - Strings (Strings.antt and Strings/): comparison, tokens and numbers of kernel/lib/string.c.
-- - Users (Users.antt and Users/): users, groups and passwords, kernel/system/users/users.c,
--   on top of Sha256 and Strings. Users/Text holds the functions on texts. The two files of
--   the disk are lists of bytes; an argument says whether a disk operation succeeds.
-- - Paging (Paging.antt and Paging/): page tables, kernel/system/mm/paging.c, on a memory of
--   tables; new tables come from Pmm, and pages that are unmapped go back to Pmm or to Shm.
--   Paging/Access, Paging/Walk and Paging/Rule are about the checks of user memory,
--   Paging/Map and Paging/Mapped about mapping, Paging/Unmap about unmapping.
-- - Memory (Memory.antt and Memory/): memset, memcpy and memmove of kernel/lib/string.c, with their
--   loops over 8-byte words, on a memory of bytes.
-- - Libc (Libc.antt and Libc/): strings of libc/src/string.c and `strtol` of libc/src/stdlib.c.
-- - Input (Input.antt and Input/): kernel/drivers/input/input.c, the console's ring of 256
--   bytes and the handling of keys and of the mouse. What an event asks of the console or of
--   the window manager is an `Action`.
-- - Ramfs (Ramfs.antt and Ramfs/): regular files of kernel/fs/ramfs/ramfs.c. A copy that
--   would leave the block of a file is the outcome `outside`.
-- - Base: numbers, lists as arrays, and the bits of a byte.
--
-- Machine integers are natural numbers with the wrap-around written out. The code of Pmm,
-- Heap, Shm, Mailbox and Process runs with interrupts off, on one processor, so that a call (for
-- `mailbox_recv` and `process_wait`, a turn) is one step: system calls are entered with interrupts off.
--
-- Fuel: the walks of the heap along `next` take fuel. Every block takes at least its header of 24
-- bytes, so that fuel above the size of the region divided by 24 is enough, and the theorems ask for
-- that. The loop of `sha256_update` takes the length of its input, as does the one over the lines of
-- a file; the search for a free uid takes 33 tries, one more than the table has entries. The search of
-- `schedule` makes 100 steps and the climb of `process_set_foreground` 32, as in the code; there are
-- at most 33 processes. The loop over the pages of a range takes two steps more than whole pages fit
-- into it, which is enough. All other loops are structural. `int` arithmetic on
-- numbers read from text wraps at 2^32.
--
-- Not modelled: the content of allocated memory, `heap_dump` (it prints), the kernel's own tables and
-- the release of an address space, the open files, the FPU state and the argument stack of a process,
-- system calls but for their dispatcher, paths and directories, the other file systems, the other
-- drivers, the shell but for Ctrl+C, the rest of the libraries, the boot loaders and the tools.
pub mod Base
pub mod Pmm
pub mod Heap
pub mod Shm
pub mod Mailbox
pub mod Process
pub mod Sha256
pub mod Strings
pub mod Memory
pub mod Paging
pub mod Libc
pub mod Input
pub mod Users
pub mod Ramfs
