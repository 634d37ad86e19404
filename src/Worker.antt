-- ===== src/Worker.antt =====
-- The background workers (worker).
pub mod Relay
pub mod Sending
