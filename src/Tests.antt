-- ===== src/Tests.antt =====
-- Concrete runs: a small kernel, numbers for floats, and the theorems applied at them.
mod World
mod Data
mod Blocklist
mod Circuit
mod Counters
mod Breaker
mod Detector
mod Engine
mod Ipc
mod Policy
mod Ring
mod Geoip
mod Hardening
mod Control
mod Packet
mod Honeypot
mod Umem
mod Auth
mod Totp
mod Guards
mod Bus
