-- ===== src/Ipc.antt =====
-- The IPC between the control plane and the AI engine, control-plane/internal/ipc.
pub mod Protocol
pub mod Server
