-- ===== src/Honeypot.antt =====
-- The honeypot, control-plane/internal/honeypot.
pub mod Tracker
