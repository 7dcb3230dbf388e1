-- ===== src/Kernel.antt =====
-- The kernel's parts: src/kernel/src.
pub mod Alloc
pub mod Vga
pub mod Font
pub mod Console
pub mod Keyboard
pub mod Pci
pub mod Idt
pub mod Isr
pub mod Pic
pub mod Start
pub mod Syscalls
pub mod Run
