-- ===== src/Tools.antt =====
-- The tools of the agents: tools/pluto-tool-handlers.ts, api/composite-tools.ts and
-- api/pluto-local-api.ts of packages/pluto-v2-runtime.
pub mod Values
pub mod Names
pub mod World
pub mod RoundTrip
pub mod Handlers
pub mod Audit
pub mod Composite
pub mod Run
pub mod Request
pub mod Guards
pub mod Api
pub mod Authorized
pub mod Turn
pub mod Keeps
pub mod Served
pub mod Replayed
pub mod Status
pub mod Reconciled
pub mod Ends
pub mod Concludes
pub mod Claims
pub mod Audited
pub mod Samples
pub mod Tests
