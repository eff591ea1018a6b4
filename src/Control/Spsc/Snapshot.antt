-- ===== src/Control/Spsc/Snapshot.antt =====
-- FromAfxdpMeta of control-plane/control/failsafe.go: a packet as the fixed-size element of the
-- ring. A nil source is none.
use falx_v.Base.{
  ℕ, ◌-◌, ◌≡◌, ◌∙◌, ap, refl, Bool, true, false, List, ◌++◌, Option, none, some, length, take, min,
  zero, suc, ◌%◌, ◌^◌, take-append_length, arith, length-append, length-take,
}
use falx_v.Control.Spsc.{SpscMeta, zeros, zero_meta}

-- What the methods of the source interface return.
pub record PacketSource : Type 0 where
  pub get_src_ip : List ℕ
  pub get_dst_ip : List ℕ
  pub get_flow_id : ℕ
  pub get_pkt_len : ℕ
  pub get_src_port : ℕ
  pub get_dst_port : ℕ
  pub get_tcp_flags : ℕ
  pub get_protocol : ℕ
  pub get_is_ipv6 : Bool
  pub get_payload : List ℕ

-- copy into a zeroed array of n bytes.
unfoldable pub copied : ℕ → List ℕ → List ℕ
copied n bytes = take n bytes ++ zeros (n - length bytes)

unfoldable pub from_afxdp_meta : Option PacketSource → SpscMeta × Bool
from_afxdp_meta none = (zero_meta, false)
from_afxdp_meta (some src) = (
  record {
    src_ip = copied 16 src.get_src_ip;
    dst_ip = copied 16 src.get_dst_ip;
    flow_id = src.get_flow_id;
    pkt_len = src.get_pkt_len;
    src_port = src.get_src_port;
    dst_port = src.get_dst_port;
    tcp_flags = src.get_tcp_flags;
    protocol = src.get_protocol;
    is_ipv6 = src.get_is_ipv6;
    payload_len = min 64 (length src.get_payload) % 2 ^ 8;
    payload = copied 64 src.get_payload;
  },
  true,
)

length-zeros : (n : ℕ) → length (zeros n) ≡ n
unfolding zeros
length-zeros zero = refl
length-zeros (suc n) = omega (arith, length-zeros n)

length-copied : (n : ℕ) (bytes : List ℕ) → length (copied n bytes) ≡ n
unfolding copied
length-copied n bytes = omega (
  arith,
  length-append (take n bytes) (zeros (n - length bytes)),
  length-take n bytes,
  length-zeros (n - length bytes),
)

take-take-append : (n : ℕ) (xs ys : List ℕ) → take (min n (length xs)) (take n xs ++ ys) ≡ take n xs
take-take-append n xs ys = rw (← length-take n xs) (take-append_length (take n xs) ys)

short_take :
    (xs : List ℕ)
    → take (min 64 (length xs) % 2 ^ 8) (take 64 xs ++ zeros (64 - length xs)) ≡ take 64 xs
short_take xs =
    ap (λ n. take n (take 64 xs ++ zeros (64 - length xs))) (omega arith)
    ∙ take-take-append 64 xs (zeros (64 - length xs))

-- The element has full arrays, and its payload up to the stored length is the packet's, cut after
-- 64 bytes.
pub from_afxdp_meta-payload :
    (src : PacketSource)
    → (length (from_afxdp_meta (some src)).0.src_ip ≡ 16)
      × (length (from_afxdp_meta (some src)).0.dst_ip ≡ 16)
      × (length (from_afxdp_meta (some src)).0.payload ≡ 64)
      × (take (from_afxdp_meta (some src)).0.payload_len (from_afxdp_meta (some src)).0.payload
          ≡ take 64 src.get_payload)
unfolding from_afxdp_meta copied
from_afxdp_meta-payload src = (
  length-copied 16 src.get_src_ip,
  length-copied 16 src.get_dst_ip,
  length-copied 64 src.get_payload,
  short_take src.get_payload,
)
