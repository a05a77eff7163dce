-- ===== src/Dashboard.antt =====
-- The dashboard of the web application (frontend/app/src/pages/DashboardPage.tsx). The other three
-- applications hold copies of the page that differ in colours.
pub mod State
pub mod Services
pub mod TokenId
pub mod Transaction
pub mod Identities
pub mod Portfolio
pub mod Upload
pub mod Submit
pub mod Account
pub mod Forms
pub mod Widgets
pub mod View
pub mod ContextMenu
pub mod Edits
pub mod Marks
pub mod Machine
pub mod Threads
