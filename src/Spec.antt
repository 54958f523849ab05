-- ===== src/Spec.antt =====
-- core/spec-compiler.ts of packages/pluto-v2-core: from an authored spec to a team context.
pub mod Authored
pub mod Roles
pub mod Compile
pub mod WellFormed
pub mod Matchers
pub mod Policies
pub mod Parts
pub mod Tasks
pub mod Agentic
pub mod Decides
pub mod Rights
pub mod Start
pub mod Tests
