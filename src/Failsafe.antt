-- ===== src/Failsafe.antt =====
-- The failsafe engine, control-plane/internal/failsafe.
pub mod Reason
pub mod Breaker
pub mod Recovery
pub mod Detector
pub mod Latch
pub mod Engine
