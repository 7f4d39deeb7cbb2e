-- ===== src/Tests.antt =====
-- The theorems at concrete inputs, by which their hypotheses are seen to hold.
mod Kernels
mod Procs
mod Scheds
mod Bytes
mod Pages
mod Logs
mod Greps
mod Locks
mod Syscalls
mod Disks
mod Paths
mod Buffers
mod Spaces
mod Consoles
mod Shells
mod Requests
