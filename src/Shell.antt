-- ===== src/Shell.antt =====
-- What stands round every page: the routes and their guard, the sidebar, the navigation bar.
pub mod Guard
pub mod Sidebar
pub mod Navbar
pub mod Navigation
