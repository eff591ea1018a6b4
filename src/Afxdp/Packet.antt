-- ===== src/Afxdp/Packet.antt =====
-- The packet parser, control-plane/internal/afxdp/packet.go. A read or a slice outside of the frame
-- is `none`, where the code would panic. An address that is nil is the empty list.
pub mod Reads
use Prim.Native.Nat.{bit_xor}
use falx_v.Base.Bytes.{get_elem?, big_endian, slice}
use falx_v.Base.{
  ℕ, zero, suc, ◌+◌, ◌-◌, ◌*◌, ◌/◌, ◌%◌, ◌^◌, Bool, true, false, not, ◌||◌, List, [], ◌∷◌, ◌++◌,
  Option, none, some, ltb, leb, ◌==◌, if◌then◌else◌, length, min,
}
use falx_v.Bpfmaps.Types.{IpAddr}

abbrev pub eth_type_ipv4 : ℕ
eth_type_ipv4 = 0x0800

abbrev pub eth_type_ipv6 : ℕ
eth_type_ipv6 = 0x86DD

abbrev pub proto_tcp : ℕ
proto_tcp = 6

abbrev pub proto_udp : ℕ
proto_udp = 17

abbrev pub eth_hdr_len : ℕ
eth_hdr_len = 14

abbrev pub ipv4_hdr_min : ℕ
ipv4_hdr_min = 20

abbrev pub ipv6_hdr_len : ℕ
ipv6_hdr_len = 40

abbrev pub tcp_hdr_min : ℕ
tcp_hdr_min = 20

abbrev pub udp_hdr_len : ℕ
udp_hdr_len = 8

pub record PacketMeta : Type 0 where
  pub src_ip : IpAddr
  pub dst_ip : IpAddr
  pub is_ipv6 : Bool
  pub protocol : ℕ
  pub src_port : ℕ
  pub dst_port : ℕ
  pub tcp_flags : ℕ
  pub pkt_len : ℕ
  pub flow_id : ℕ
  pub payload_sample : List ℕ
  pub umem_offset : ℕ

pub data ParseError : Type 0 where
  frame_too_short truncated_ipv4 invalid_ihl truncated_ipv6 : ParseError

pub data Parsed : Type 0 where
  packet : PacketMeta → Parsed
  malformed : ParseError → Parsed

-- What follows a read that may be outside of the frame.
infixl 10 ◌then_read◌
abbrev pub ◌then_read◌ : {A B : Type 0} → Option A → (A → Option B) → Option B
none then_read f = none
some a then_read f = f a

fnv : ℕ → List ℕ → ℕ
fnv h [] = h
fnv h (c ∷ cs) = fnv ((bit_xor h c * 1_099_511_628_211) % 2 ^ 64) cs

-- FNV-1a over the addresses, the ports and the protocol.
unfoldable pub compute_flow_id : PacketMeta → ℕ
unfolding fnv
compute_flow_id m = fnv 14_695_981_039_346_656_037 (
    m.src_ip
    ++ (m.dst_ip
        ++ (m.src_port / 256
            ∷ m.src_port % 256
            ∷ m.dst_port / 256
            ∷ m.dst_port % 256
            ∷ m.protocol
            ∷ [])))

-- At most 64 bytes of the payload, if there are any.
unfoldable pub sample : List ℕ → ℕ → PacketMeta → Option PacketMeta
sample frame payload_start meta =
    if ltb payload_start (length frame)
    then slice frame payload_start (min 64 (length frame - payload_start))
      then_read (λ bytes. some (record meta { payload_sample = bytes }))
    else some meta

unfoldable pub parse_tcp : List ℕ → ℕ → PacketMeta → Option PacketMeta
parse_tcp frame offset meta = big_endian frame offset 2 0 then_read (λ src.
    big_endian frame (offset + 2) 2 0 then_read (λ dst.
      big_endian frame (offset + 12) 2 0 then_read (λ flags.
        get_elem? frame (offset + 12) then_read (λ b.
          sample frame (offset + (b / 16) * 4)
            (record meta { src_port = src; dst_port = dst; tcp_flags = flags % 2 ^ 9 })))))

unfoldable pub parse_udp : List ℕ → ℕ → PacketMeta → Option PacketMeta
parse_udp frame offset meta = big_endian frame offset 2 0 then_read (λ src.
    big_endian frame (offset + 2) 2 0 then_read (λ dst.
      sample frame (offset + udp_hdr_len) (record meta { src_port = src; dst_port = dst })))

-- The packet and whether its transport header was complete.
unfoldable pub parse_l4 : List ℕ → ℕ → PacketMeta → Option (PacketMeta × Bool)
parse_l4 frame offset meta =
    let remaining = length frame - offset in
    if meta.protocol == proto_tcp
    then (if ltb remaining tcp_hdr_min
        then some (meta, false)
        else parse_tcp frame offset meta then_read (λ m. some (m, true)))
    else if meta.protocol == proto_udp
    then (if ltb remaining udp_hdr_len
        then some (meta, false)
        else parse_udp frame offset meta then_read (λ m. some (m, true)))
    else some (meta, true)

-- The flow's hash, where the transport header was complete.
finished : PacketMeta × Bool → Option Parsed
finished (m, true) = some (packet (record m { flow_id = compute_flow_id m }))
finished (m, false) = some (packet m)

-- The packet behind an address header of a known length.
parse_addresses : List ℕ → ℕ → ℕ → ℕ → ℕ → ℕ → Bool → PacketMeta → Option Parsed
parse_addresses frame src dst size proto next v6 meta = slice frame src size then_read (λ s.
    slice frame dst size then_read (λ d. get_elem? frame proto then_read (λ p.
      parse_l4 frame next (record meta { src_ip = s; dst_ip = d; protocol = p; is_ipv6 = v6 })
      then_read finished)))

unfoldable pub parse_ipv4 : List ℕ → PacketMeta → Option Parsed
unfolding parse_addresses finished
parse_ipv4 frame meta =
    if ltb (length frame) (eth_hdr_len + ipv4_hdr_min)
    then some (malformed truncated_ipv4)
    else get_elem? frame eth_hdr_len then_read (λ b.
      let ihl = (b % 16) * 4 in
      let rest =
        parse_addresses frame (eth_hdr_len + 12) (eth_hdr_len + 16) 4 (eth_hdr_len + 9)
          (eth_hdr_len + ihl) false meta in
      if ltb ihl ipv4_hdr_min || ltb (length frame) (eth_hdr_len + ihl)
      then some (malformed invalid_ihl)
      else rest)

unfoldable pub parse_ipv6 : List ℕ → PacketMeta → Option Parsed
unfolding parse_addresses finished
parse_ipv6 frame meta =
    if ltb (length frame) (eth_hdr_len + ipv6_hdr_len)
    then some (malformed truncated_ipv6)
    else parse_addresses frame (eth_hdr_len + 8) (eth_hdr_len + 24) 16 (eth_hdr_len + 6)
        (eth_hdr_len + ipv6_hdr_len) true meta

unfoldable pub parse_frame : List ℕ → ℕ → Option Parsed
parse_frame frame umem_offset =
    let meta : PacketMeta = record {
      src_ip = [];
      dst_ip = [];
      is_ipv6 = false;
      protocol = 0;
      src_port = 0;
      dst_port = 0;
      tcp_flags = 0;
      pkt_len = length frame % 2 ^ 32;
      flow_id = 0;
      payload_sample = [];
      umem_offset = umem_offset;
    } in
    if ltb (length frame) eth_hdr_len
    then some (malformed frame_too_short)
    else big_endian frame 12 2 0 then_read (λ ether_type.
      if ether_type == eth_type_ipv4
      then parse_ipv4 frame meta
      else if ether_type == eth_type_ipv6
      then parse_ipv6 frame meta
      else some (packet meta))
