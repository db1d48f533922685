-- ===== src/Api.antt =====
-- The API server: mikrom-api/src.
pub mod Entitlements
pub mod Plans
pub mod RateLimit
mod Tests
