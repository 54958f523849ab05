-- ===== src/Prompt.antt =====
-- What an actor is shown when it is woken: adapters/paseo/wakeup-delta.ts of
-- packages/pluto-v2-runtime.
pub mod Views
pub mod Delta
pub mod Limits
pub mod Lookups
pub mod Orders
pub mod Collects
pub mod Reports
pub mod Wakes
pub mod Delivers
pub mod Tests
