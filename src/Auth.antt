-- ===== src/Auth.antt =====
-- The authentication of operators, control-plane/pkg/auth.
pub mod Models
pub mod Password
pub mod Totp
pub mod Action
pub mod Store
pub mod Service
pub mod Database
pub mod Bootstrap
pub mod Host
pub mod Tokens
pub mod Middleware
