-- ===== src/Lib.antt =====
-- The teaching kernels of the repository (cos318-project1 to cos318-project6), as far as their logic
-- is modelled and verified.
--
-- The kernel of cos318-project4 runs tasks by a lottery. Tasks stand in circular doubly linked queues
-- whose nodes are the first field of the pcb; the scheduler keeps a ready queue and a sleep queue,
-- and every lock, condition variable, semaphore and barrier has a wait queue. cos318-project6 adds
-- mailboxes, which use locks and condition variables, and virtual memory, which saves pages to
-- the image of their process. Its jobs stand in one ring through the pcbs; kernel.c makes them, and takes
-- the processes from the directory that createimage.c writes into the image.
--
--   Base       names, tests and lemmas that all files share.
--   Queue      cos318-project4/queue.c and queue.h: queue_init, queue_get, queue_put, queue_empty,
--              queue_first, queue_put_sort, on a store of the pointers next and prev (Heap). A null
--              pointer or the lack of fuel is a fault. Queue/Refine says which list a queue stands
--              for; the other files of the kernel use lists in place of the pointers.
--   Kernel     cos318-project4/scheduler.c and scheduler.h: the state is current_running, the
--              pcbs by their index, the two queues, the pool of tickets, the seed of rand (util.c)
--              and the clock. scheduler, do_yield, do_exit, do_sleep, try_wake, unblock,
--              put_current_running, do_getpriority and do_setpriority.
--   Sync       cos318-project4/sync.c and sync.h: the state is the kernel's and the lock, condition
--              variable, semaphore or barrier that the call is about.
--   Mailbox    cos318-project6/mbox.c and mbox.h: messages in a circular buffer of 1024 bytes.
--   PageTable  cos318-project6/memory.c: page_set_mode, table_map_page, dir_ins_table, and the loops
--              that fill page tables, on the words of the physical memory.
--   Memory     the rest of memory.c: the page map, page_alloc, page_replacement_policy,
--              page_swap_in, page_swap_out; Memory/Fault has page_fault_handler, Memory/Start has
--              init_memory and setup_page_table.
--   Text       cos318-project6/util.c: bcopy, bzero, strlen, same_string, clear_screen, scroll,
--              print_char, print_str, atoi, on bytes by their address and the cells of the screen;
--              Text/Convert has itoa, itohex, reverse, print_int and print_hex, and Text/Decimal
--              reads back by atoi what itoa writes.
--   Keyboard   cos318-project4/keyboard.c: keyboard_interrupt and the handlers of the keys.
--   Jobs       cos318-project6/scheduler.c and the pcb lists of kernel.c: the ring of jobs through next and
--              previous, the waiting lists through next_blocked, and the state of each pcb.
--   Thread     cos318-project6/thread.c: spinlocks, locks and condition variables. Thread/Served has the
--              steps of the jobs that share a lock.
--   Image      cos318-project6/createimage.c: the image file that the boot block and memory.c read, and
--              readdir of kernel.c; Image/Segments has the places of segments, Image/Listing the
--              process directory.
--   Descriptors cos318-project6/kernel.c: create_gate, create_segment, init_idt, init_gdt.
--   Spawn      cos318-project6/kernel.c: init_pcb_table, create_thread, create_process, loadproc and the
--              threads that _start makes, over Jobs and Memory.
--   Allocator  cos318-project5/usb/allocator.c: kzalloc_align, kzalloc, kfree and allocator_init on the
--              array of chunks. Allocator/Blocks has the blocks that the array stands for.
--   Typing     cos318-project6/keyboard.c: the queue of characters over Mailbox, for the handlers of
--              Keyboard.
--   Shell      cos318-project6/shellutil.c and shell.c: the window of the shell, readLine, parseLine
--              and the choice of a command in _start. Shell/Commands lists the commands.
--   Usb        cos318-project5/usb/usb.c: get_descriptor_ptr, the search in a configuration.
--   Bios       cos318-project6/usb.c: read and write of a sector through the BIOS; Bios/Directory has
--              make_v86_page_directory, Bios/Words the disk of words for Memory.
--   V86        cos318-project6/interrupt.c: gpf_handler, which carries out what the processor does not let
--              a program in virtual 8086 mode do.
--   Tests      runs on small inputs, and the theorems at inputs that meet their hypotheses.
--
-- Conventions. A function that halts the machine (ASSERT, HALT), follows a null pointer or is left
-- without fuel returns none. Critical sections (entry.S) are atomic steps; a call that blocks is
-- its part up to the block and, for a lock, its part after. Unsigned words wrap by a remainder.
--
-- Bounds and fuel. queue_put_sort has fuel, and more of it than items is enough. The lottery has
-- the length of the ready queue as fuel, and where there are tickets it ends within it. The idle loop of
-- scheduler is a list of clock ticks, one for each turn; it ends when the clock reaches the first
-- wake-up time. The second loop of page_replacement_policy has one turn of the page map
-- as fuel, and ends within it where a page other than page 0 is not pinned. The loop of
-- the scheduler of cos318-project6 has fuel, and more of it than sleeping jobs before a running one is
-- enough; the walk of unblock needs as much fuel as jobs that wait. The padding of a sector has the
-- length of a sector as fuel. A loop over a string has fuel, and more of it than characters is enough, and the
-- loops of parseLine have the length of the line. The search of kzalloc_align and the
-- update of the blocks before have more turns than chunks. gpf_handler ends with more fuel than
-- prefixes, get_descriptor_ptr with as much as descriptors. The walk of check_for_deadlock is bounded in the source.
--
-- Not modelled. The switch of stacks and registers (entry.S), interrupts, and the readings of the
-- processor's timer, which are arguments. The pool of tickets is an int of 32 bits that wraps;
-- the invariant of the scheduler asks for less than 2^31 tickets. The disk of memory.c is an interface
-- (Memory.Disk), which read and write of usb.c fill (Bios/Words). The BIOS that usb.c calls is a
-- parameter (Bios), and that it works is a hypothesis (Bios.Sectors.Works). The flush of the TLB changes no memory. Locks around
-- the functions of mbox.c, memory.c and allocator.c are taken as held. The commands of the shell call a file
-- system whose functions have no body yet. The other kernels, drivers, user programs and the boot
-- blocks are not modelled.
pub mod Base
pub mod Queue
pub mod Kernel
pub mod Sync
pub mod Mailbox
pub mod PageTable
pub mod Memory
pub mod Text
pub mod Keyboard
pub mod Jobs
pub mod Thread
pub mod Image
pub mod Descriptors
pub mod Spawn
pub mod Allocator
pub mod Typing
pub mod Shell
pub mod Usb
pub mod Bios
pub mod V86
pub mod Tests
