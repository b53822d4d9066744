-- ===== src/Examples.antt =====
-- Tests of the definitions, and the theorems at concrete inputs.
mod Memory
mod Files
mod Disk
mod Processes
mod Calls
mod Switching
mod Persisting
mod Shell
mod Creating
mod Loading
mod Entering
mod Living
mod Panicking
mod Starting
