-- ===== src/Bpfmaps.antt =====
-- The eBPF map manager, control-plane/pkg/bpfmaps.
pub mod Types
pub mod RateLimiter
pub mod Kernel
pub mod Audit
pub mod Manager
pub mod Hardening
