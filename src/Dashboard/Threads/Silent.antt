-- ===== src/Dashboard/Threads/Silent.antt =====
-- The parts of the dashboard's programs that leave the marks alone.
pub mod Transaction
pub mod Submit
pub mod Identities
pub mod Portfolio
