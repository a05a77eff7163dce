-- ===== src/Examples.antt =====
-- Concrete runs: the data, and the theorems applied to them.
pub mod Data
pub mod Nft
pub mod Transfer
pub mod Assets
pub mod Pages
pub mod Chains
pub mod Journey
pub mod Racing
pub mod Signing
pub mod Views
