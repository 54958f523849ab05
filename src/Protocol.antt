-- ===== src/Protocol.antt =====
-- The wire types of packages/pluto-v2-core/src: actors, entities, events, requests, and the parse of
-- a raw request.
pub mod Actor
pub mod Event
pub mod Request
pub mod Schema
pub mod Parse
pub mod Keys
pub mod Sound
