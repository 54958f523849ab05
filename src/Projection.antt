-- ===== src/Projection.antt =====
-- The views of a run: packages/pluto-v2-core/src/projections (and the view types of projections.ts).
pub mod Task
pub mod Mailbox
pub mod Evidence
pub mod Replay
pub mod Reducers
mod TakenIn
pub mod Redelivery
pub mod Order
pub mod TaskEffect
pub mod Outside
pub mod Agrees
pub mod Agreement
mod Tests
