-- ===== src/Syscall/Settled.antt =====
-- System calls keep the invariant of the kernel.
pub mod Steps
pub mod Hook
pub mod Move
pub mod Procs
pub mod Caps
pub mod Derive
pub mod Supervisor
pub mod Deliver
pub mod Ipc
