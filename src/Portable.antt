-- ===== src/Portable.antt =====
-- app/portable/normalize.py: the validation of an imported bundle, before any database access.
pub mod Json
pub mod Platform
pub mod Rows
pub mod Values
pub mod Vehicles
pub mod Places
pub mod Trips
pub mod Expenses
pub mod Bundle
mod Tests
