-- ===== src/Kernel.antt =====
-- The kernel: kernel/*.c, one module for each source file or part of one.
pub mod Console
pub mod Frames
pub mod Heap
pub mod Thread
pub mod Mutex
pub mod Process
pub mod Fs
mod Tests
