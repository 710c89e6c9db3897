-- ===== src/Dhcp.antt =====
-- ProjectFiles/dhcpserver: the DHCP server of the access point.
pub mod Options
pub mod Lease
pub mod Server
pub mod Socket
pub mod Tests
