-- ===== src/Installer.antt =====
-- The installer's parts: src/installer/src.
pub mod Error
pub mod Machine
pub mod Alloc
pub mod Strings
pub mod Disk
pub mod Console
pub mod Font
pub mod Fat12
pub mod Dir
pub mod Paging
pub mod Start
