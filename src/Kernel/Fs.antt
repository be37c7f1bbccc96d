-- ===== src/Kernel/Fs.antt =====
-- The file system of kernel/fs.c: nodes, paths, files in memory, descriptors and system calls.
pub mod Node
pub mod File
pub mod Path
pub mod Descriptor
pub mod Syscall
pub mod Mount
