-- ===== src/Store.antt =====
-- store/src: what is written to the database, and what is read back from it.
pub mod Dto
pub mod Ranks
pub mod Fixed
pub mod Load
pub mod Uptime
pub mod Query
pub mod Averages
pub mod Upsert
pub mod Jito
pub mod Validators
pub mod Scores
pub mod Changes
pub mod Hints
pub mod Aggregates
