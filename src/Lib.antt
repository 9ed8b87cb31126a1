-- ===== src/Lib.antt =====
-- Noverix, a 32-bit kernel for x86 in C: a model of the parts that manage memory, CPUs and bytes,
-- and the theorems about them.
--
-- Parts and files. Each module names the C functions it models in its first lines and keeps their
-- names and their order of arguments.
--   Base and the files in Base/ hold what the other modules share: C comparisons, words of 8, 16
--   and 32 bits, bit operations as arithmetic, arrays as lists and as functions of the index.
--   Memory is memory as bytes at addresses, with words of 16 and 32 bits in the order of x86. A
--   pointer is a number.
--   CLib is kernel/lib.c: memcpy, memset, strlen, strcmp, strcpy.
--   Pfa is kernel/memory/pfa.c, the page frame allocator. Its state is `bitmap` and `total_frames`.
--   Pfa/Bitmap has the bits, Pfa/Single one frame, Pfa/Runs contiguous frames, Pfa/Init the start.
--   Heap is kernel/memory/heap.c, the kernel heap. Its state is memory itself, from 8 MB to 10 MB.
--   Heap/Blocks says when memory is tiled by blocks; Heap/Malloc, Heap/Free, Heap/Release and
--   Heap/Realloc are about one function each, Heap/Client about calloc and the start, Heap/Walk
--   about a heap that may be corrupted.
--   Paging is kernel/memory/paging.c, over memory and the page frame allocator. Paging/Entries has
--   the bits of entries, Paging/Tree what a directory maps and what writes to it change,
--   Paging/Mapping and Paging/Unmapping the functions.
--   Spinlock is kernel/sync/sync.h. The other modules treat a section under a lock as one step;
--   Spinlock/Exclusion justifies that, over all interleavings of any number of CPUs, for the three ways
--   in which the kernel takes a lock: with the interrupts saved, by a try, and plainly.
--   WorkQueue is kernel/scheduler/scheduler.c, the queue of tasks that all CPUs share.
--   WorkQueue/Slots has the loops over the slots, WorkQueue/Runs the interleavings of the sections.
--   Task is kernel/task.c, the switches between tasks, in Task/Switch.
--   Gdt is kernel/cpu/gdt.c, the segment descriptors, in Gdt/Descriptors.
--   Serial is the output of kernel/drivers/serial.c, in Serial/Numbers.
--   Keyboard is kernel/drivers/keyboard.c. Keyboard/Queue has the ring buffer as a queue,
--   Keyboard/Handler the interrupt handler and the reachable states, Keyboard/Layout the keys and
--   what they type, Keyboard/Interrupts one interrupt as a whole.
--   Net is kernel/net/net.c, kernel/net/net.h and kernel/net/tcp.c. Net itself has the byte order, the
--   checksum and the dotted addresses, with Net/Checksum and Net/Addresses about them. Net/Host is the
--   state of both files with the card and the timer, Net/Arp and Net/Icmp the two protocols, Net/Tcp
--   the segments, Net/Receive `net_parse_packet`, `net_arp_resolve` and `net_ping`, Net/Sockets the
--   calls on sockets. Net/Sane, Net/SaneReceive, Net/SaneSockets and Net/Runs are about all packets and
--   calls, Net/Segments, Net/Received and Net/Handshake about a segment for one socket.
--   Nvfs is kernel/drivers/nvfs.c, the file system. Nvfs/Disk has its static variables, the disk and
--   the calls that can fail; Nvfs/Bitmap, Nvfs/Inode, Nvfs/Extents, Nvfs/Directory and Nvfs/Paths the
--   static functions; Nvfs/Calls and Nvfs/Mount the public ones. Nvfs/Bitmap/Bits and
--   Nvfs/Bitmap/FreeRun are about the bitmap, Nvfs/Inode/Codec and Nvfs/Inode/Table about inodes on
--   the disk, the files in Nvfs/Extents about the data of a file, Nvfs/Mount/Layout and
--   Nvfs/Mount/Drives about superblocks and mounting.
--   Elf is `elf_exec` of kernel/elf.c, with Elf/Checks about the checks of a file and Elf/Loading about
--   the memory that it is loaded to.
--   Acpi is kernel/acpi/rsdp.c and kernel/acpi/madt.c, the tables that list the CPUs, with Acpi/Walk
--   about the end of the loops and Acpi/Processors about the CPUs that they find.
--
-- Numbers. `unsigned int` is a natural number with the wrap-around by 2 ^ 32 written out where the
-- code can reach it. Indices of loops that stay within an array are plain natural numbers.
--
-- Loops. A loop with a counter recurs on the rounds that are left. The loop of `malloc_impl` takes
-- `malloc_fuel` rounds; Heap/Walk shows that this is enough on every memory. The loops over a
-- string take fuel, and one round more than the string has bytes is enough. The folding loop of
-- `net_checksum` takes three rounds, which is enough for every sum. The scan of `pick_next_locked`
-- takes as many rounds as the circular list has places, and one. A loop of the network
-- ends where its time is up; the times and the frames are a list of events, and `rounds` bounds the
-- loops that run within each other, as a frame is handled while an address is waited for. The loops
-- over ACPI tables take one round for each 16 bytes or each byte, and one, which is enough where no
-- pointer into the MADT goes round at 2 ^ 32.
--
-- Not modelled: port and register I/O, inline assembly other than that of kernel/sync/sync.h, log
-- output, the drivers that consist of these, assembly files and user programs. The creation and the
-- end of tasks, the system calls, the shell and the IDT are not modelled. A disk and a network card
-- are what can be read from and written to them, with their errors. In Nvfs, a name that is longer
-- than the buffers of the callers is not modelled as what it overwrites, and a block number is taken
-- for -1 from 2 ^ 31 on, as the code's `int` is. In Heap, a `realloc` that has to move the block is
-- modelled, but has no theorem.
mod Base
pub mod Memory
pub mod CLib
pub mod Pfa
pub mod Heap
pub mod Keyboard
pub mod Spinlock
pub mod WorkQueue
pub mod Paging
pub mod Net
pub mod Task
pub mod Gdt
pub mod Serial
pub mod Nvfs
pub mod Elf
pub mod Acpi
