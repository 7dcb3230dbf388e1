-- ===== src/Libc.antt =====
-- The C library of the kernel, src/kernel/src/libc; src/installer/src/std has the same text of
-- printf.c, stdlib.c and of the functions that are modelled from string.c and ctype.c.
pub mod Strings
pub mod Stdlib
pub mod Number
pub mod Itoa
pub mod Directive
pub mod Format
