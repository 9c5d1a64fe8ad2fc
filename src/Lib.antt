-- ===== src/Lib.antt =====
-- A model of AIM, a teaching kernel for i386, ARMv7-A and MIPS: its memory management, its boot
-- loader, its library, its device index and some of its drivers, with the theorems that make them
-- correct.
--
-- The parts, and the files that model them:
-- * include/util.h, the arithmetic macros that the rest uses: Util.antt. A macro is a function of
--   the width of its operands' type and wraps as that type does.
-- * kern/mm/pmm/buddy.c with the types of include/aim/pmm.h and the lists of include/list.h, the
--   buddy allocator: Buddy.antt. `buddy_pmalloc__malloc`, `__aligned_malloc`, `__free`, `__get_size`,
--   `__get_free_bytes` and `__ctor` are `malloc`, `aligned_malloc`, `free`, `get_size`,
--   `get_free_bytes` and `ctor`, on a record of the object's fields. An allocator at rest is
--   described by blocks that cover its pages (Buddy/Tiles, Buddy/Holes): the free lists hold
--   exactly the free blocks, and the counters count them.
-- * kern/mm/kmmap/early_kmmap.c, the queue of early mappings: EarlyKmmap.antt. Each function is a
--   function of the same name on a record of the file's variables.
-- * kern/arch/i386/arch_mmu.c, `page_index_init` of kern/mm/mmu.c and the macros of
--   include/aim/mmu.h: BootPages.antt, the page tables that the kernel boots with, which the queue
--   of early mappings fills.
-- * kern/arch/armv7a/arch_mmu.c with include/arch/armv7a/arch-mmu.h, the same for ARMv7-A:
--   ArmPages.antt, on the loop of BootPages with other entries.
-- * lib/libc/memcpy.c, memmove.c and memset.c: Memory.antt; memcmp.c, strlen.c, strcmp.c and
--   strlcpy.c: Strings.antt.
-- * kern/dev/index/devlist.c, the list of devices: Devices.antt. It compares names by `strcmp`.
-- * `arch_init_pmm_zone` and `arch_init_free_pmm_zone` of kern/arch/i386/arch_mmu.c, the zones of
--   physical memory and the pages that their allocators are given: Zones.antt.
-- * kern/mm/mmu.c and kern/mm/jump.c, the queues of handlers: Handlers.antt.
-- * kern/mm/vmm/pvbridge.c and use_page.c, objects from pages: Bridge.antt, on any page allocator;
--   Bridge/RoundTrip puts it on the buddy allocator.
-- * kern/mm/vmm/bootstrap.c, the allocator before that: Bootstrap.antt.
-- * kern/mm/vmm/slub.c, small objects: Slub.antt. It stands on an interface of what a bridge promises
--   (Bridge/Pieces), which the bridge over the buddy allocator fills (Bridge/OverBuddy). Slub/State
--   says which blocks and objects the lists stand for, and Slub/Runs follows any sequence of calls.
-- * kern/mm/vmm/vmm.c with include/aim/vmm.h, `kmalloc` and `kfree` on the installed allocator:
--   Kmalloc.antt; Kmalloc/Release puts it, through the adapter, on the bridge and the buddy
--   allocator.
-- * kern/mm/pmm/pmm.c with include/aim/pmm.h, `alloc_pages` and `free_pages`: Pages.antt.
-- * lib/libc/snprintf.c, formatted output: Format.antt. The text is read character by
--   character; where the loop stands in a directive is a value (`Place`), and the `goto`s are calls.
-- * boot/arch/i386/kernreader.c, the loop over the program headers of boot/bootmain.c, and the
--   headers of include/elf.h: Boot.antt. The loader stands on an interface of a file reader
--   (Boot/Readers), which the reader of sectors fills (Boot/Kernel).
-- * boot/arch/armv7a/kernreader.c and libc.c, the file in memory: BootArm.antt.
-- * boot/bio.c, the formatted output of the boot loader: BootPrint.antt.
-- * boot/crc32.c, the checksum: Crc32.antt; boot/arch/i386/console.c: Screen.antt.
-- * drivers/io/io-mem.c and io-port.c, the buses: Bus.antt; drivers/serial/uart-ns16550.c and the
--   output of uart-rpi2.c: Uart.antt; kern/arch/armv7a/mach-rpi2/mailbox.c: Mailbox.antt. They
--   stand on the access functions of a bus, and the hardware is a parameter.
--
-- A failed assertion is `panic`, an access outside an array or a shift by the width `undefined`
-- (Common/Outcome). `size_t` and pointers have 32 bits, `addr_t` and `lsize_t` 64.
--
-- Fuel: the loop for the order of a request has 32 rounds, since a shift reaches the width after
-- them; `malloc` is shown to need no more for up to 2^31 pages. The constructor's loop has 31
-- rounds, enough for fewer than 2^31 pages. The loop over the big pages of a mapping has 2048
-- rounds, since a size of less than 2^32 bytes has fewer big pages than that, and the loop over the
-- queue 11, one more than the queue holds. The loop for the digits of a number has 64 rounds, one
-- for each bit. The loop of `write_uint` has 20, the elements of its array, and that for the level
-- of an object 60 from level 4 on, until the shift would reach the width. The loops of
-- `kernreader_readfile`, `pmemset` and `arch_init_free_pmm_zone` and those that wait for a device
-- take their fuel as an argument, and the theorems say how much is enough.
--
-- Not modelled: the console of the kernel, the rest of the boot loader and of the drivers, traps
-- and processor registers; the printing of an allocator's state; the mappings of MIPS. The
-- configured bases of the kernel's regions are a parameter. The array behind the queue of early
-- mappings is a list of its first `queue_size` entries.
pub mod Common
pub mod Util
pub mod Buddy
pub mod EarlyKmmap
pub mod BootPages
pub mod Memory
pub mod Handlers
pub mod Zones
pub mod Slub
pub mod Strings
pub mod Devices
pub mod Bus
pub mod Uart
pub mod Mailbox
pub mod Bridge
pub mod Bootstrap
pub mod Format
pub mod Screen
pub mod BootPrint
pub mod BootArm
pub mod ArmPages
pub mod Boot
pub mod Kmalloc
pub mod Pages
pub mod Crc32
