-- ===== src/Lib.antt =====
-- Verification of parts of the BadgerOS kernel.
--
-- What is modelled, file by file:
-- - Base, Base/Tests, Base/Lists, Int, Order, Bits, Memory, Errors: shared numbers, Boolean tests,
--   lists, signed integers, bit masks, byte memory, and the error values. `mem_copy` and `mem_set` are
--   functions of badgelib, a submodule, and stand as the interface `MemLib` that its users take as a
--   parameter; Memory/Plain has a plain implementation for the tests.
-- - NumToStr: `num_uint16_to_str`, `num_uint32_to_str`, `num_uint64_to_str` and `num_uint_to_str` of
--   kernel/src/badgelib/num_to_str.c. Cstr: the four conversions to C strings of that file.
-- - Freestanding: `strlen`, `strnlen`, `memmove`, `memcpy` and `memset` of kernel/src/freestanding/string.c,
--   over one memory of bytes with words stored lowest byte first.
-- - IntRoutines: unsigned and signed division at 32 and 64 bits, `__mulsi3` and the byte swaps of
--   kernel/src/freestanding/int_routines.c. The shifts, the combined signed division, the wider
--   multiplications and the zero counts of that file are not modelled.
-- - Blockdevice: kernel/src/blockdevice/blockdevice.c with the records of
--   kernel/include/blockdevice/blkdev_internal.h. Defs has the state, Cache the choice and the flushing of an
--   entry, Io the operations on whole blocks, Partial those on parts of blocks, Maintain flushing,
--   housekeeping and the life of cache and device, Ram the driver of kernel/src/blockdevice/blkdev_ram.c.
--   The driver behind the vtable, the clock, the heap and the `blkdev_*_raw` functions, which no file
--   of the repository defines, are the fields of the parameter `Driver`. The debugging output
--   `blkdev_dump_cache` is left out.
-- - Sync: kernel/src/badgelib/spinlock.c and kernel/src/badgelib/mutex.c as step relations on the lock word, one
--   step for each atomic access, with any number of threads. The memory orders are not modelled: the
--   accesses of one word are in one order. The mutex's waiting list and timers are left out, since
--   they only decide when a thread makes its next round.
-- - Time: kernel/src/time.c for one CPU: the list of timer tasks and the alarm of the CPU's timer. The
--   array functions of badgelib are the parameter `TaskArray`.
-- - Housekeeping: the task queue of kernel/src/housekeeping.c, with the arrays as the parameter
--   `QueueArray`. The start of the housekeeping thread is not modelled.
-- - Mmu: the page-table entries of kernel/cpu/riscv/include/cpu/mmu.h and their place. PageTable: walking
--   and editing page tables in kernel/port/generic/src/memprotect.c. PageTable/Protect has removal, the
--   contexts and the operations that the kernel calls, from that file too. The entries are a function of
--   the physical address, and the pages that `phys_page_alloc` will give out are a list. Owner says when
--   a tree of tables is well formed and what it translates; Attach, Split, Table, Step, Levels and Map follow
--   one mapping, Superpage and Range a range of pages, Translate the lookup, Rights and User the mapping
--   for a program. The tables of one root are followed; tables shared between roots are not.
-- - Vmm: the ranges of kernel page numbers in kernel/port/generic/src/memprotect.c, free and in use. The
--   arrays of badgelib are the parameter `VmmArray`. Ranges says what a list of ranges covers, Edit and
--   GiveBack change one entry between its neighbours, Order relates them to the order of the array,
--   Alloc and Free are the two operations, Boot is `memprotect_postheap_init`, without the switch to the
--   new page table.
--
-- - Bitops: the counts of leading zeros and the first set digit of kernel/src/malloc/bitops.h, in the
--   versions without compiler builtins.
-- - Buddy: kernel/src/malloc/static-buddy.c. Buddy itself has one pool: its lists, the split and the merge of
--   blocks, the search and the two ends of an allocation. Pools has the array of pools and the operations
--   that the kernel calls, Init the creation of a pool. An address is a number and a block is the
--   index of its first page. Tiles says that blocks are aligned and apart, Retile how that changes, Lists which blocks a list
--   holds, and Invariant what holds of a pool between two operations, given the blocks that are handed
--   out. Split, Merge and Free follow a block that is given back, Find, Shrink and Take one that is taken, Order
--   the orders, Alloc and Dealloc all pools, and RoundTrip both together. `memcpy` and the printing of the lists are left out.
-- - Slab: kernel/src/malloc/slab-alloc.c. Slots has the digits of a bitmap and the slots of a page, Settle
--   what may become of a page that a slot is given back to, Place and Lower its way between the lists,
--   Reuse a slot that is taken and given back. Slab/Malloc: kernel/src/malloc/malloc.c, without the lock that each
--   function takes and the start-up.
--
-- Bounds and fuel: `strlen` runs on fuel, and any fuel above the length of the string is enough. The
-- first loop of `divmod` has one round for each bit of the word, which is enough for every divisor but
-- 0, where the source does not call it. The loops of the locks run on lists of rounds, or as steps,
-- and are not bounded: a list of rounds that ends with a loop still running gives no result. `pt_map` and `pt_unmap` run on fuel, one round for each page, which is enough since
-- a round takes at least one page; their callers give them the number of pages.
-- `free_block` and `split_down` run on fuel, one round for each order, which is enough since each round
-- changes the order of the block by one. The loops of the bit counts have one round for each digit.
--
-- How the parts interact: the conversions and the block device copy bytes through `MemLib`; the block
-- device calls its driver, which Ram implements. malloc calls the slab allocator, which takes its pages
-- from the buddy allocator, as malloc does for large blocks. `memprotect_u` and `memprotect_k` edit the tables that
-- `memprotect_virt2phys` reads.
--
-- Buddy/Pages has kernel/src/page_alloc.c over the pools and the kernel's memory of bytes; the page tables take their pages from a list in their
-- state, not from there.
--
-- Not modelled: the scheduler, processes, file systems,
-- and everything that touches devices or registers; the
-- submodules and vendored libraries.
pub mod Base
pub mod Int
pub mod Order
pub mod Bits
pub mod Memory
pub mod NumToStr
pub mod Cstr
pub mod Freestanding
pub mod Errors
pub mod Bitops
pub mod Blockdevice
pub mod Slab
pub mod Sync
pub mod IntRoutines
pub mod Time
pub mod Housekeeping
pub mod Mmu
pub mod PageTable
pub mod Vmm
pub mod Buddy
