-- ===== src/Control.antt =====
-- The data plane's helpers of control-plane/control/failsafe.go: the ring between the packet
-- reader and the analysis, the country
-- lookup, the sweep of stale map entries, and the checks at the start.
pub mod Spsc
pub mod Geoip
pub mod Amnesty
pub mod Startup
pub mod Thresholds
