-- ===== src/Policy.antt =====
-- The policy engine, control-plane/pkg/policy.
pub mod Rule
pub mod Engine
