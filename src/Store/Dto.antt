-- ===== src/Store/Dto.antt =====
-- store/src/dto.rs: the records that the components exchange.
pub mod Scalars
pub mod Rows
pub mod Validators
pub mod Records
pub mod Scores
