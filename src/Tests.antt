-- ===== src/Tests.antt =====
-- Concrete inputs, and the theorems of the results at them.
mod Data
mod Uptime
mod Changes
mod Store
mod Collect
mod Api
mod Jito
mod Load
mod Validators
