-- ===== src/Scripts.antt =====
-- The scripts of the contracts (contracts/scripts): deployment, the integration test against a
-- chain, and the funding of the paymaster.
pub mod Chain
pub mod Quiet
pub mod Deploy
pub mod DeployMocks
pub mod Interact
pub mod Fund
