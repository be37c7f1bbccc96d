-- ===== src/Libc.antt =====
-- The C library: libc/src, one module for each source file or family of functions.
pub mod Mem
pub mod Str
pub mod Strtok
pub mod Ctype
pub mod Strtol
pub mod Stdlib
pub mod Arith
pub mod StrCopy
pub mod Printf
mod Tests
