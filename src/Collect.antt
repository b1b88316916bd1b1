-- ===== src/Collect.antt =====
-- collect/src: what is read from the chain and from the services around it.
pub mod Performance
pub mod Retry
pub mod Superminority
pub mod Jito
pub mod Validators
