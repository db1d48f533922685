-- ===== src/Dns.antt =====
-- The name server: mikrom-dns/src.
pub mod Zone
pub mod Records
pub mod Sync
pub mod Resolution
mod Tests
