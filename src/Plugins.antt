-- ===== src/Plugins.antt =====
-- src/plugins and include/plugins: what the plugins share, and single plugins.
pub mod Host
pub mod Loading
pub mod Hmac
pub mod Echo
pub mod Redirect
pub mod NotFound
pub mod ModuleCache
