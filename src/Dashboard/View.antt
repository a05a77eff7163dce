-- ===== src/Dashboard/View.antt =====
-- The view of DashboardPage.tsx as the list of its elements, in the order of the page.
pub mod Profile
pub mod Interact
pub mod Page
pub mod Locking
