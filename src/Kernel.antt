-- ===== src/Kernel.antt =====
-- The run kernel of packages/pluto-v2-core/src/core: the reducer, the event log and the submission of
-- requests, with the proofs in the modules below.
pub mod Reducer
pub mod Log
pub mod Host
pub mod Build
pub mod Submit
pub mod Step
pub mod Outcome
pub mod Atomic
pub mod Move
pub mod Replay
pub mod Idempotency
pub mod Foreign
pub mod Tasks
mod Builders
pub mod Total
mod Tests
