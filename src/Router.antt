-- ===== src/Router.antt =====
-- The router: mikrom-router/src.
pub mod ControlPlane
pub mod Health
pub mod Proxy
pub mod State
pub mod StateManager
pub mod Traffic
