-- ===== src/Util.antt =====
-- util/
pub mod Base64
pub mod Url
pub mod Split
pub mod Case
pub mod Escape
pub mod Numbers
pub mod Mime
