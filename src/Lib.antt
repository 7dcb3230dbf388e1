-- ===== src/Lib.antt =====
-- AmethystOS: a hobby operating system for the i386, its kernel verified function by function.
--
-- The program's parts. The boot loader (assembly) starts the installer (src/installer) or the kernel
-- (src/kernel). The kernel's `_start` clears the screen, sets the font, programs the interrupt
-- tables, makes the heap and lists the PCI devices on the text console.
--
-- The modules.
-- - Base: names of the libraries, Boolean tests, lists indexed by native numbers, the counted loop,
--   machine words.
-- - Kernel.Alloc: src/kernel/src/libc/allocator.c. A table of chunks is the list of its slots; the
--   result 0 of a table operation is `none`. Alloc.Cover and Alloc.Facts count how often a table
--   covers an address; Alloc.Rules splits a call into its exits; Alloc.Tiles, Alloc.Live and
--   Alloc.Run hold the theorems. The tables may have any length; the program's have 0x4000 slots.
-- - Kernel.Vga: src/kernel/src/kernel/vga.c over a memory that is a function from addresses to bytes.
-- - Kernel.Font: src/kernel/src/libc/sys/font.c and the bitmaps of
--   src/kernel/src/kernel/fonts/font_linux_6x8.c, copied byte by byte in Font.Low and Font.High.
-- - Kernel.Console: src/kernel/src/libc/stdio.c, the console that `putchar` draws with the font.
-- - Kernel.Pci: src/kernel/src/kernel/pci.c. The configuration space is a parameter, since it is
--   hardware; so is the value of the uninitialised variable of `pci_scan`.
-- - Kernel.Idt: src/kernel/src/kernel/idt.c and the table `isr_list` of isr.c. The addresses of the
--   handlers are a parameter, since the linker chooses them.
-- - Kernel.Isr: src/kernel/src/kernel/isr.c, the exception handlers, with `printf` of printf.c, which
--   writes to the console. Isr.Message is the table of their texts. A handler ends in a call
--   of `halt` or of `return_interrupt`, which as a function does not resume what was interrupted.
-- - Kernel.Pic: src/kernel/src/kernel/pic.c, as the list of the bytes written to the ports.
-- - Kernel.Syscalls: src/kernel/src/kernel/syscalls.c and syscalls.asm.
-- - Kernel.Start: src/kernel/src/start.c, which calls the parts above in order and then lists the PCI
--   devices. The addresses that the linker chooses are parameters. Start.Formats, Start.Listing and
--   Start.Complete are about the lines that are printed, Start.Screen about what is seen.
-- - Kernel.Run: the kernel in its endless loop, as a sequence of interrupts: an exception or a system
--   call goes through the gate of its vector to the code that the linker has put there. What is
--   interrupted goes on after a system call, and not after an exception.
-- - Kernel.Keyboard: src/kernel/src/libc/sys/layout.c, the layouts and the shift state of a keyboard.
-- - Libc.Strings, Libc.Stdlib, Libc.Itoa: functions of string.c, ctype.c and stdlib.c in
--   src/kernel/src/libc.
-- - Libc.Number, Libc.Directive, Libc.Format: src/kernel/src/libc/printf.c: `number`, the reading of a
--   directive, and `vsprintf`. The output buffer is the list of the characters written, and an
--   argument that is not there gives `none`.
--
-- - Installer.Error, Installer.Machine: src/installer/src/sys/error.c, and the state that the functions of
--   the installer share: the tables of the heap, the memory and the error code. The tables are kept
--   apart from the memory: a write through a pointer that reaches them, as by the last copy of
--   `disk_read` where it runs past the end of its destination, is not seen in them.
-- - Installer.Alloc: src/installer/src/std/allocator.c over the tables of Kernel.Alloc. Alloc.Merge,
--   Alloc.Coalesced and Alloc.Gains are about merging, Alloc.Calls and Alloc.Outcome about the calls.
-- - Installer.Strings: functions of string.c and ctype.c in src/installer/src/std.
-- - Installer.Disk: src/installer/src/sys/disk/disk.c. The BIOS calls of disk.asm are parameters; a
--   drive that reads without errors is the record Serves of Disk.Read. Disk.Create opens a disk,
--   Disk.Texts and Disk.Header are about its header.
-- - Installer.Fat12: src/installer/src/sys/disk/fs/fat12.c. Fat12.Files searches and reads, Fat12.Dir
--   lists, with dir.c and file.c of src/installer/src/sys/disk, which call it.
-- - Installer.Paging: src/installer/src/sys/paging/paging.c.
-- - Installer.Console: src/installer/src/std/stdio.c, driver/vga.c and sys/font.c, where they differ from
--   the kernel's.
-- - Installer.Font: src/installer/src/assets/font6x8.c, copied byte by byte.
-- - Installer.Dir: `dir_open` of src/installer/src/sys/disk/dir.c, which prints on that console.
-- - Installer.Start: src/installer/src/start.c. Start.Prepared is about its calls in front
--   of the one that opens the disk.
--
-- Numbers. A C integer is its bit pattern, a natural number; wrap-around is written out. In
-- `putchar` the products of the cursor and the font's size stay far below 2 ^ 31 as long as the
-- cursor is on the screen.
--
-- Loops are counted, or run over a list, but for those that take fuel. `digit_loop` and `itoa_loop`
-- have 32 rounds, since each divides a 32-bit number by 2 at least; `format_loop` has one round for
-- each character of the format, since each reads one at least; `reverse_loop` has one for each byte.
-- `merge_remove_chunk` has one round for each slot of the table, since each round empties a slot. The
-- loops of FAT12 over clusters and directory entries may not end on a damaged disk: they take fuel and
-- give `none` when it is used up, and their theorems say how much is enough. The loop over the parts of
-- a path has one round for each byte of the path.
--
-- Not modelled: what runs after a handler has called `return_interrupt`, the boot loader and the port
-- instructions (assembly), and what the system calls leave in the registers.
pub mod Base
pub mod Libc
pub mod Kernel
pub mod Installer
