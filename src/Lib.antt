-- ===== src/Lib.antt =====
-- A model of the kernel of SkinnyArm, an operating system for 64-bit ARM, with the theorems about it.
--
-- The allocator hands out 4 KiB frames of one flat memory; the page tables, which it also feeds,
-- translate virtual addresses; the process table holds what the scheduler, fork, kill and the locks
-- work on.
--
--   Base        shared names, Boolean tests, and lemmas on lists
--   Bits        the bits of numbers under and and or
--   Memory      physical memory as bytes, with 64-bit little-endian words
--   Pte         kernel/vmem.c, lines 24 to 80: the macros that build and read page table entries;
--               Fields has the laws of the fields, Entries the entries' contents
--   Kalloc      kernel/kalloc.c: `kalloc_init`, `clear_page`, `kfree`, `kalloc`; FreeList has the list
--               that memory holds, Init the list that `kalloc_init` builds; Client is a program that
--               calls the allocator and uses its pages, Pool what the allocator promises it, Pages
--               and Refine compare the two, and Conserve says where the frames are
--   Vmem        kernel/vmem.c, lines 91 to 180: `get_physical_page` and `map_page`; Translate reads a
--               whole table without filling anything in, and Leads, Walk, Mapping, Success and
--               Lookup compare the walk with it; Keeps has what it leaves alone. "Translates" always
--               means what the code's own macros read in the entries, bit 10 and the address field:
--               not bits 0 and 1, nor what the MMU makes of an entry
--               Space has the tables of all addresses at once: Link, Walk, Fill and Page follow
--               `get_physical_page` through them, Map has what `map_page` does to the map from virtual to
--               physical pages, Region `map_region` and Kernel `make_kpagetable`
--               Region has lines 183 to 280: `map_region`, `free_page`, `unmap_region` and
--               `free_pagetable`; KernelTable has `make_kpagetable`, UserCopy `copy_from_user` and
--               `copy_to_user`, Clone `clone_pagetable`, whose uninitialised `frame` is an argument
--   Str         kernel/string.c
--   Rootfs      kernel/rootfs.c: the numbers (Hex) and marks (Header) of an archive's headers,
--               `search_file` and `read` (Search), `ls` (Listing)
--               Ramfs has `init_ramfs`; Archive describes an archive in its own words, Word, Name, Switch and Moves the
--               parts of a round, Round and Step a whole round, Later and Table all of them
--   Uart        kernel/uart.c: sending, reading and the interrupt, over a device that is a parameter;
--               Echo has what is sent, Init the register writes of `uart_init`
--   Irq         kernel/exceptions.c: `handle_irq`, with `enable_timer_interrupt` of kernel/low_level.c;
--               Handled has what it does to the serial port and the timer,
--               Messages `exception_handler`
--   Overlap     kernel/main.c's order of `kalloc_init` and `init_ramfs`
--   Start       kernel/main.c up to `enable_vmem`; Registers has the addresses of kernel/memory_map.h, Frames
--               what `kalloc_init` hands to `make_kpagetable`, Maps what the entries lead to afterwards; Devices
--               has the rest of `main`, with the registers that kernel/low_level.c sets
--   Process     kernel/process.c with `struct process` of kernel/definitions.h and `switch_to` of
--               kernel/user_context.S: `getpid` (Pid), `scheduler` (Schedule), `kill_process` (Kill),
--               `sys_fork` (Fork), `wakeup` (Wait), `create_first_process` (First, with its end in
--               First/Killed); Names
--               follows the pids through all of them: Fork and Calls one call, Run any sequence of calls
--   Lock        kernel/lock.c and `sleep` of kernel/process.c: on one CPU (Sequential, with a
--               lock that is taken in Deadlock), and the spin
--               lock (Interleaved) and the sleep lock (Sleepers) with any number of CPUs as step relations.
--               In Interleaved some CPUs may also call `spinlock_release` without the lock; Stray has
--               what such a call of CPU 0 does
--   Tests       the theorems at concrete inputs
--
-- Memory is a function from addresses to bytes, and pointers are numbers. Code that changes memory
-- takes the old state and returns the new one. A function that returns 0 or -1 returns true or
-- false, or an `Option`. Numbers are natural numbers; a cut to 8 or 64 bits is written out.
--
-- Fuel: `kalloc_init` has a round per frame below the end of memory and two more, and its
-- loop ends behind the last of them. `getpid` tries at most 65 pids, since 64 processes have at most
-- 64. `search_next` runs through the table at most twice, which suffices since the
-- current process has just been made runnable. The spin loops have any amount of fuel: one round is
-- enough for a free lock, and none for a lock that nobody releases. `map_region` and `unmap_region`
-- have a round per page below the region's end and two more. `strequal` has enough with more rounds
-- than the first string has characters, `ls` with more than the directory has names. The loops of
-- `copy_from_user` and `copy_to_user` have any amount: they need not end. `init_ramfs` has enough with
-- a round more than the archive has entries, and 16 rounds for a name, which the names in question do
-- not fill. The loops of the serial port have enough with a round more than bytes have arrived, and one
-- more than the transmitter stays busy.
--
-- Not modelled: assembly but for `switch_to`, most system registers, the delivery of interrupts, the
-- caches and the order of memory accesses, start-up in assembly (kernel/boot.S), what the MMU makes
-- of a table and its faults, and the user programs. `create_first_process` stands up to its jump to the
-- user's code, and `sys_execve` is a comment.
mod Base
mod Bits
pub mod Pte
pub mod Memory
pub mod Kalloc
pub mod Vmem
pub mod Str
pub mod Rootfs
pub mod Process
pub mod Lock
pub mod Uart
pub mod Overlap
pub mod Start
pub mod Irq
mod Tests
