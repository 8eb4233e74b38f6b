-- ===== src/Syscall.antt =====
-- src/syscall.c: the system calls, and the invocations of capabilities.
pub mod Hook
pub mod Basic
pub mod Caps
pub mod Ipc
pub mod Supervisor
pub mod Invoke
pub mod Settled
