-- ===== src/Api.antt =====
-- api/src: what the service computes of the cached records for its clients.
pub mod Query
pub mod Filter
pub mod Listing
pub mod Cache
pub mod Breakdowns
