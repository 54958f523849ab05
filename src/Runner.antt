-- ===== src/Runner.antt =====
-- A run of an authored spec from its start to its end: runtime/runner.ts of packages/pluto-v2-runtime,
-- and the adapter that plays a script.
pub mod Script
pub mod Scenario
pub mod Fake
pub mod Plays
pub mod Finishes
pub mod Record
pub mod Tests
