-- ===== src/Lib.antt =====
-- A verification library for the shedOS kernel (kernel/src).
--
-- The program's parts and the modules that model them. A C function keeps its name; a loop is a
-- function of its own, named for what it does, with the rounds that are left as its first argument.
--
-- Memory (kernel/src/memory). Addr: addrutil.c. Bitmap: bitmap.c. Pmm: pmm.c, the pages of physical
--   memory on a bitmap; Pmm.Init is pmm_initialize over the bootloader's memory map. Paging: paging.c,
--   the four-level tables, which take their pages from Pmm through palloc (kernel/src/libk/alloc.c);
--   Spaces: the same file's functions on whole address spaces, their copies and the kernel's own one.
--   Vmm: vmm.c, which maps fresh pages into an address space. Cow: cow.c, called for page faults.
-- Libk (kernel/src/libk). Alloc: alloc.c, the kernel heap, which grows by pages of Vmm. Memutil:
--   memutil.c. Strutil: strutil.c.
-- Screen. Framebuffer and Terminal: kernel/src/terminal; Printf: kernel/src/libk/printf.c, whose output
--   is a list of events that Terminal takes.
-- Tasks. kernel/src/task/sched.c, the tick of kernel/src/interrupts/timer.c, and
--   kernel/src/syscall/fork.c, on the ring of tasks; Fork adds the address spaces. Loader:
--   kernel/src/task/task.c with the headers of kernel/src/task/elf.h.
-- Interrupts (kernel/src/interrupts). Idt: idt.c. Apic: apic.c. Chips: pic.c and hpet.c. Dispatch:
--   interrupts.c and timer_format; page faults go to Cow, ticks to Tasks.
-- Devices. Registry: kernel/src/device/device.c and kernel/src/userspace/kernel_function.c. Drive:
--   kernel/src/device/drive/drive.c. Nvme: kernel/src/pci/nvme.c; Nvme.Setup and Nvme.Namespaces are
--   what happens when a controller is found. Partition: kernel/src/vfs.
-- Boot. Sdt: kernel/src/sdt. Gdt: kernel/src/gdt. Pci: kernel/src/pci/pci.c. Start: start.c.
--   Cpuinfo: kernel/src/cpu/cpuinfo.c, whose numbers of the version Start decodes.
-- Base: shared names, lists, bit masks, machine words, and Result for code that may panic.
--
-- State. Static variables and structures are records that the functions take and return. Memory is a
-- function of the address: of bytes for strings and firmware tables, of 64-bit words for page tables,
-- of headers for the heap. Unsigned numbers are natural numbers with the wrap of the source written
-- out (add64, sub64, mul64, `% 2 ^ w`). A field of a `uint8_t` or `uint32_t` is cut where it is stored.
-- Shifts and masks by constants are written as division and remainder where only those bits are read.
--
-- Fuel. strlen and the other loops over strings, the walk of malloc, the records of the MADT, the tags
-- of the bootloader and the capabilities of a PCI device take fuel and answer `none` when it is used
-- up; a number above that of the steps is enough, where the steps end. 64 rounds of utos count the
-- digits of any 64-bit number in a base of two or more.
--
-- Code outside the repository, and hardware, are parameters: the firmware's and the bootloader's memory,
-- the answers of an NVMe controller (what its completion entry holds each time it is looked at), the
-- function with which a drive reads blocks, the registers of the timer chips, and the font's table.
-- Effects that no state of the model shows are lists: port writes, device writes, and the bytes that
-- the loader and copy on write put into the pages of a task. Page tables and bytes are two memories in
-- the model, so nothing is said of code that reaches one through the other.
--
-- Not modelled: assembly (interrupt stubs, switch_to_task, lidt and its kin), the protocol header
-- stivale2.h, the constants of elf.h that the loader does not use, test programs, and messages that are
-- only printed. The MSI-X set-up of NVMe controllers, which nothing calls, is not modelled either.
pub mod Base
pub mod Boot
pub mod Devices
pub mod Interrupts
pub mod Libk
pub mod Memory
pub mod Screen
pub mod Tasks
