-- ===== src/Cap.antt =====
-- api/s3k_cap.h: capabilities as two 64-bit words, a module for each type of capability, the tests
-- of derivation, and what src/syscall.c makes of a parent capability. The kernel's gen/cap.h is the
-- same text with assertions in the constructors and accessors. They are not part of the functions
-- here: Update and Boot have those that the source does not test itself before the call.
mod Base
pub mod CapType
pub mod Memory
pub mod Pmp
pub mod Time
pub mod Channels
pub mod Receiver
pub mod Sender
pub mod Server
pub mod Client
pub mod Supervisor
pub mod Derivation
pub mod Update
pub mod Valid
unfoldable pub use Base.*
