-- ===== src/Afxdp.antt =====
-- The AF_XDP path of control-plane/internal/afxdp: the parser of its packets and the pool of frames.
pub mod Packet
pub mod Umem
