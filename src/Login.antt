-- ===== src/Login.antt =====
-- The login page (frontend/app/src/pages/LoginPage.tsx): the page's state and first effect are in
-- Login.State, its three ways to sign in in the other modules.
pub mod State
pub mod Siwe
pub mod Kratos
