-- ===== src/Runtime.antt =====
-- The runtime that drives a run (packages/pluto-v2-runtime): whose turn it is, how long a run may go
-- on, who may act and who is woken.
pub mod Scheduler
pub mod LoopState
pub mod Driver
pub mod Closeout
pub mod Lease
mod Turns
pub mod Budget
pub mod Delegation
pub mod Returns
pub mod CloseoutRights
pub mod Waits
pub mod Wakeups
pub mod Parked
mod Tests
mod WaitTests
