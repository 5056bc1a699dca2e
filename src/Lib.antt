-- ===== src/Lib.antt =====
-- AsifOS: a model of the kernel's own data structures and of its table code, and what has been shown
-- of them.
--
-- The kernel is a set of C files under src/kernel. At the bottom lies the heap of 4096-byte blocks
-- (heap/heap.c), which every other part allocates from. The page tables (paging/paging.c) give each
-- task its view of memory; the tasks (task/task.c) are a doubly linked list that the kernel cycles
-- through. Interrupts enter through the table of interrupt/idt.c and are dispatched by
-- interrupt/interrupts.c; interrupt 0x80 reaches the kernel commands of isr80h. Keys come from the
-- driver of keyboard/ps2.c to the event buffer of a process (keyboard/keyboard.c), and characters go
-- to the screen (tty.c). Programs (elf/loader.c) are read through the calls on files of fs/file.c,
-- which find a file by the paths of fs/pparser.c and pass on to the filesystem of the disk, the driver
-- of fs/fat16.c. It reads the disk (disk/disk.c) as streams of bytes (disk/stream.c).
--
-- What models what:
--   Heap        src/kernel/heap/heap.c: heap_create, heap_malloc, heap_free and their helpers over the
--               list of the table's bytes; Heap.Kheap: heap/kheap.c at the constants of config.h
--   Kern.Mem    src/kernel/stdkern/kernmem.c: memsetk, memcpyk; Kern.Status: include/nuttle/status.h
--   Paging      src/kernel/paging/paging.c: paging_map, paging_map_to, paging_get_physical_addr over
--               memory as a function from addresses to words; Paging.Chunk the creation and the release
--               of a chunk over an allocator
--   Process     src/kernel/task/process.c: process_alloc_malloc and process_alloc_free over Heap and
--               Paging; Process.Map the mapping of programs, Process.Kernel the processes in memory and
--               process_free, Process.Load the loading of a program over Fs, Elf, Task and Paging
--   System      the kernel as a program meets it: System.Call the bodies of isr80h/commands.c and
--               isr80h_handler, System.Interrupt the keyboard's interrupt, both over Process, Task, Tty,
--               Keyboard and Paging
--   Stdlib      programs/stdlib, the library of the user programs: Stdlib.Itoa and Stdlib.Printf of
--               stdio.c, Stdlib.Readline of asifos.c and gets
--   Keyboard    src/kernel/keyboard/keyboard.c: the buffer, against the queue of Keyboard.Queue;
--               Keyboard.Drivers the list of keyboards
--   Interrupts  src/kernel/interrupt: idt.c, interrupts.c; Interrupts.Pic: pic.c
--   Isr80h      src/kernel/isr80h: the table of isr80h.c and the registrations of commands.c
--   Stream      src/kernel/disk/stream.c
--   Pparser     src/kernel/fs/pparser.c: pparser_parse_path, pparser_free
--   Task        src/kernel/task/task.c: the list of tasks over a store of nodes; Task.Chain and
--               Task.Listed say which list a store holds; Task.Tss: task/tss.c
--   Kern.Str    src/kernel/stdkern/kernstr.c, and memcmpk of kernmem.c
--   Fat16       src/kernel/fs/fat16.c: Fat16.Name and Fat16.Find the names and the search,
--               Fat16.Cluster and Fat16.File the clusters and fat16_read, Fat16.Position seek, tell and
--               stat, Fat16.Walk the directories, open and close, Fat16.Driver the table of functions
--   Fs          src/kernel/fs/file.c and fs/fs.c: Fs.Table the descriptors, Fs.Calls the calls on files
--               over any filesystem (the record NuttleFs), Fs.Filesystems the table of filesystems
--   Elf         src/kernel/elf/loader.c, and fetch_mode of stdkern/kernio.c
--   Io          the ports: a run is given the answers it reads and collects what it writes
--   Disk        src/kernel/disk/disk.c, with disk_all_init in Disk.Mount; Keyboard.Ps2: src/kernel/keyboard/ps2.c, both over Io
--   Tty         src/kernel/tty.c, and putsk and putsck of stdkern/kernio.c; Tty.Message the
--               shape of the cursor and the messages of src/kernel/kernel.c
--   Gdt         src/kernel/gdt/gdt.c: encodeGDTEntry, gdt_entry_from_structured
-- Prelude has what these share: tests, lists, faults and bits. Tests has runs at concrete inputs.
--
-- Conventions: an array is a list, and an access outside of it, a write outside of a block or a kernel
-- panic is a fault, the `none` of an Option. A function that changes state returns the new state. A
-- 32-bit number is a natural number, with its wrap-around written out where the source can reach it.
--
-- Bounds and fuel: the loops recurse on the list or on the count that the source loops over. The loop
-- of pparser_parse_path takes fuel, one more than the length of the text that is left; each round
-- takes a character, and Pparser.Parts shows that it is enough for every printed path. The search of a
-- directory takes fuel, for which Fat16.Search shows how much is enough; the loops over a directory's
-- clusters and over the status of a device take the number of rounds they are granted. The loop of itoa
-- has fuel for the ten digits of an int and its last test, which Stdlib.Number shows to be enough. The loop
-- over the program headers reads their number again in every round, and takes as much fuel as a number
-- of 16 bits allows.
--
-- Parameters: the sectors of the disk stream, the answers of the ports, the addresses of assembly
-- routines (the linker's), the keys that a waiting program gets, and the allocator of the path parser,
-- of the files, of the ELF loader, of the page tables and of the loading of a process. The loading holds
-- each block in the part that uses it: the page tables are words of memory, the processes and the tasks
-- records at their addresses. The numbers of a process and of the size of an ELF program, which nothing
-- reads, are left out.
-- Not modelled: the boot loader and the assembly routines, which are instructions of the processor, and
-- kernel_main, which calls the parts in order and prints messages.
pub mod Prelude
pub mod Kern
pub mod Heap
pub mod Keyboard
pub mod Tty
pub mod Gdt
pub mod Stream
pub mod Pparser
pub mod Interrupts
pub mod Isr80h
pub mod Paging
pub mod Process
pub mod Fat16
pub mod Fs
pub mod Elf
pub mod Io
pub mod Disk
pub mod Task
pub mod Stdlib
pub mod System
pub mod Tests
