-- ===== src/Events.antt =====
-- The events between the subsystems, control-plane/pkg/events.
pub mod Bus
