-- ===== src/Tests.antt =====
-- The theorems at concrete inputs.
mod Atomics
mod Caps
mod Library
mod Locks
mod Messages
mod Nodes
mod Printing
mod Runs
mod States
mod Schedules
mod Calls
mod Slices
mod Traps
mod Users
