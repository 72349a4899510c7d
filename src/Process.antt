-- ===== src/Process.antt =====
-- proc/process.c: process numbers, descriptor tables, signals.
pub mod Pid
pub mod Fd
mod Tests
