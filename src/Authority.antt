-- ===== src/Authority.antt =====
-- Who may do what: the policy, the state that it is judged against, and the validator
-- (packages/pluto-v2-core/src/core: team-context.ts, authority.ts, protocol-validator.ts).
pub mod Policy
pub mod State
pub mod Rules
pub mod Validate
pub mod Admission
pub mod Decides
pub mod Rejections
pub mod Canonical
mod Tests
