-- ===== src/Util.antt =====
-- include/util: base64 and the spin lock.
pub mod Base64
mod Tests
