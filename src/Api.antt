-- ===== src/Api.antt =====
-- internal/api: the handlers that join the packages.
pub mod Login
pub mod Handler
pub mod Files
pub mod Search
pub mod Endpoint
