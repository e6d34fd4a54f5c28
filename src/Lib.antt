-- ===== src/Lib.antt =====
-- IronKernel: a model of the core of the kernel, with the theorems that make it correct.
--
-- The program is an x86-64 kernel in C (src/boot, src/kernel, src/drivers) with a small C library
-- for user programs (iklibc) and test programs. At the start the boot loader's memory map goes to
-- the physical frame allocator; the heap lives above it; the scheduler takes the stacks of its tasks
-- from the heap and gives each a table of descriptors, some of them ends of pipes; interrupts feed
-- the keyboard ring and drive the scheduler; the network drivers poll a card. The library has one
-- module for each modelled part, with its definitions at the top and its theorems in the children.
--
--   Prelude    what the parts share: tests on numbers, arrays as functions from indices, lists,
--              machine words, integers, single bits of a byte, and the window of a ring.
--   Pipe       src/kernel/pipe.c: g_pipes is a function from ids to records; pipe_alloc, the counts of
--              open ends, pipe_write and pipe_read are functions of the same names.
--   Heap       src/kernel/heap.c: memory as a map from addresses to block headers; kmalloc, kfree,
--              heap_free_bytes and the leak table. Heap.Layout has the abstract view, a row of cells
--              without gaps from HEAP_START to heap_end. heap_init is in Vmm.HeapInit.
--   Pmm        src/kernel/pmm.c: the bitmap as an array of bytes and the count of free frames;
--              pmm_alloc_frame, pmm_free_frame and the marking loops of pmm_init.
--   Keyboard   src/drivers/keyboard.c: both scancode tables, the interrupt handler as a function of
--              the scancode and the driver's variables, and the reading side.
--   Arp        src/drivers/arp.c: the cache, frames as lists of bytes, arp_recv, and arp_resolve over
--              the frames that come in.
--   Sched      src/kernel/sched.c: the task array, sched_tick, task_spawn, task_exit and sched_fork.
--              A fork calls the pipe operations of Pipe; the heap and the page tables are behind the
--              record Memory, whose fields are the calls that the scheduler makes. Sched.Kernel fills it
--              with kmalloc and kfree of Heap and the operations on tables of Vmm.
--   Klog       src/kernel/klog.c: the ring of log entries, the copy of a message, the number formats,
--              and the order in which the dump prints.
--   Fat12      src/drivers/fat12.c: the table of 12-bit entries in memory; in the children mounting and
--              the drive (Store), the search of a directory (Search), files and directories (Files), the
--              current directory (Paths) and readdir (Listing). The drive is a function from sectors to
--              bytes with two flags for each sector, whether reading and writing it succeeds.
--   Libc       iklibc/src/string.c on a memory of bytes, and of stdlib.c the number conversions and
--              the allocator.
--   Internet   src/drivers/ip.c with the checksum of src/drivers/net.h: the headers of IP and UDP, the
--              socket of UDP, echo requests, and net_recv, which hands frames to Arp and Tcp.
--   Vmm        src/kernel/vmm.c: the four-level tables as frames of words over the allocator of Pmm;
--              vmm_map_page_in, the walk, vmm_create_user_pt, vmm_clone_user_pt and
--              vmm_free_user_pt.
--   Dns        src/drivers/dns.c: the encoding of a name, the query for an address, the wait for a
--              response, the reading of its answers, and the reverse lookup.
--   Tcp        src/drivers/tcp.c: the variables of the one connection, tcp_recv_frame, retx_check and
--              the waiting loops, and http_get. The frames that go out are kept as a list.
--
-- State is passed explicitly: an operation takes the variables it reads and returns them changed. A
-- C array is a function from indices, so that an index stays in range is a theorem of its user, not
-- a property of the type. Numbers are natural numbers; where the C code can wrap, the remainder is
-- written out (u8, u32, u64). A return value of -1 is none.
--
-- Loops are structural recursion on a number of rounds. The walks of the heap take fuel, one more
-- than heap_end: each step moves by at least the 12 bytes of a header, so the theorems on kmalloc,
-- kfree and heap_free_bytes prove that the fuel is never used up. The loops of pmm_init run over the
-- frames of their range, those of sched_tick over task_count, and the release of a chain over its limit
-- of 4096 clusters. The waiting loops (arp_resolve, icmp_ping, tcp_connect, tcp_recv_data,
-- dns_resolve_all) run over the polls that are their input, as many as the C loop makes at most.
--
-- The loops of the C library that look for the 0 of a text take fuel; the theorems
-- show that more fuel than the text has characters is enough. The fold of the checksum has four
-- rounds, which end it for every sum of 32 bits.
--
-- Not modelled: system calls, FAT32, ELF loading, DHCP, the
-- window manager, shell and browser, and the formatting of the C library; device registers, the
-- processor's tables, assembly (but for the pops of task_switch) and everything that only prints.
-- Interleaving of interrupts with the code they interrupt is not modelled either: each operation is
-- one step, as the kernel runs these with interrupts off or from one task. Where the C code writes past
-- an array its behaviour is not defined, and the definitions say so at the place.
pub mod Prelude
pub mod Pipe
pub mod Heap
pub mod Pmm
pub mod Keyboard
pub mod Arp
pub mod Sched
pub mod Klog
pub mod Fat12
pub mod Libc
pub mod Internet
pub mod Tcp
pub mod Vmm
pub mod Dns
