-- ===== src/Dns.antt =====
-- ProjectFiles/dnsserver: the name server of the access point, which answers every name with its
-- own address.
pub mod Server
pub mod Question
pub mod NameEnds
pub mod Reply
pub mod Answer
pub mod Tests
pub mod Socket
