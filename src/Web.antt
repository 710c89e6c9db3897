-- ===== src/Web.antt =====
-- ProjectFiles/include/net.h: the web server's users, routes, settings, events and packed files.
pub mod Users
pub mod Events
pub mod Router
pub mod Routes
pub mod Packed
pub mod Sntp
mod Tests
