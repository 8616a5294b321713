-- ===== src/Pages.antt =====
-- The pages of the frontend.
pub mod View
pub mod SignIn
pub mod Users
pub mod Roles
pub mod Audit
pub mod Policies
pub mod Applications
pub mod Dashboard
pub mod Security
pub mod Settings
