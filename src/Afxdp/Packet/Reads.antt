-- ===== src/Afxdp/Packet/Reads.antt =====
-- The parser reads no byte outside of the frame.
use falx_v.Base.Bytes.{get_elem?, big_endian, slice, IsSome, get_elem?-lt, big_endian-le, slice-le}
use falx_v.Base.{
  ℕ, ◌+◌, ◌-◌, ◌*◌, ◌%◌, ◌≤◌, ◌<◌, ◌≡◌, refl, Bool, true, false, ◌||◌, List, Option, ltb, ◌==◌,
  if◌then◌else◌, length, take, drop, min, arith,
}
use falx_v.Afxdp.Packet.{
  PacketMeta, eth_type_ipv4, eth_type_ipv6, proto_tcp, proto_udp, eth_hdr_len, ipv4_hdr_min,
  ipv6_hdr_len, tcp_hdr_min, udp_hdr_len, ◌then_read◌, sample, parse_tcp, parse_udp, parse_l4,
  finished, parse_addresses, parse_ipv4, parse_ipv6, parse_frame,
}

read-IsSome :
    {A B : Type 0} (o : Option A) (f : A → Option B)
    → IsSome o
    → ((a : A) → IsSome (f a))
    → IsSome (o then_read f)
read-IsSome o f (a, e) h = rw e (h a)

slice-IsSome : (bytes : List ℕ) (i n : ℕ) → i + n ≤ length bytes → IsSome (slice bytes i n)
slice-IsSome bytes i n h = (take n (drop i bytes), slice-le bytes i n h)

-- A conditional of which both branches are read inside.
branch-IsSome :
    {A : Type 0} (b : Bool) (x y : Option A)
    → (b ≡ true → IsSome x)
    → (b ≡ false → IsSome y)
    → IsSome (if b then x else y)
branch-IsSome true x y h k = h refl
branch-IsSome false x y h k = k refl

sample-IsSome : (frame : List ℕ) (start : ℕ) (m : PacketMeta) → IsSome (sample frame start m)
unfolding sample
sample-IsSome frame start m =
    branch-IsSome (ltb start (length frame)) _ _
      (λ e.
        read-IsSome (slice frame start (min 64 (length frame - start))) _
          (slice-IsSome frame start _ (ground arith)) (λ bytes. (_, refl)))
      (λ e. (m, refl))

parse_tcp-IsSome :
    (frame : List ℕ) (offset : ℕ) (m : PacketMeta)
    → offset + tcp_hdr_min ≤ length frame
    → IsSome (parse_tcp frame offset m)
unfolding parse_tcp
parse_tcp-IsSome frame offset m h =
    read-IsSome (big_endian frame offset 2 0) _ (big_endian-le frame offset 2 0 (omega arith))
      (λ src.
        read-IsSome (big_endian frame (offset + 2) 2 0) _
          (big_endian-le frame (offset + 2) 2 0 (omega arith))
          (λ dst.
            read-IsSome (big_endian frame (offset + 12) 2 0) _
              (big_endian-le frame (offset + 12) 2 0 (omega arith))
              (λ flags.
                read-IsSome (get_elem? frame (offset + 12)) _
                  (get_elem?-lt frame (offset + 12) (omega arith)) (λ b. sample-IsSome frame _ _))))

parse_udp-IsSome :
    (frame : List ℕ) (offset : ℕ) (m : PacketMeta)
    → offset + udp_hdr_len ≤ length frame
    → IsSome (parse_udp frame offset m)
unfolding parse_udp
parse_udp-IsSome frame offset m h =
    read-IsSome (big_endian frame offset 2 0) _ (big_endian-le frame offset 2 0 (omega arith))
      (λ src.
        read-IsSome (big_endian frame (offset + 2) 2 0) _
          (big_endian-le frame (offset + 2) 2 0 (omega arith)) (λ dst. sample-IsSome frame _ _))

parse_l4-IsSome :
    (frame : List ℕ) (offset : ℕ) (m : PacketMeta)
    → offset ≤ length frame
    → IsSome (parse_l4 frame offset m)
unfolding parse_l4
parse_l4-IsSome frame offset m h =
    branch-IsSome (m.protocol == proto_tcp) _ _
      (λ t.
        branch-IsSome (ltb (length frame - offset) tcp_hdr_min) _ _ (λ e. (_, refl))
          (λ e.
            read-IsSome (parse_tcp frame offset m) _
              (parse_tcp-IsSome frame offset m (ground arith)) (λ x. (_, refl))))
      (λ t.
        branch-IsSome (m.protocol == proto_udp) _ _
          (λ u.
            branch-IsSome (ltb (length frame - offset) udp_hdr_len) _ _ (λ e. (_, refl))
              (λ e.
                read-IsSome (parse_udp frame offset m) _
                  (parse_udp-IsSome frame offset m (ground arith)) (λ x. (_, refl))))
          (λ u. (_, refl)))

finished-IsSome : (o : PacketMeta × Bool) → IsSome (finished o)
unfolding finished
finished-IsSome (m, true) = (_, refl)
finished-IsSome (m, false) = (_, refl)

parse_addresses-IsSome :
    (frame : List ℕ) (src dst size proto next : ℕ) (v6 : Bool) (m : PacketMeta)
    → src + size ≤ length frame
    → dst + size ≤ length frame
    → proto < length frame
    → next ≤ length frame
    → IsSome (parse_addresses frame src dst size proto next v6 m)
unfolding parse_addresses
parse_addresses-IsSome frame src dst size proto next v6 m hs hd hp hn =
    read-IsSome (slice frame src size) _ (slice-IsSome frame src size hs) (λ s.
      read-IsSome (slice frame dst size) _ (slice-IsSome frame dst size hd) (λ d.
        read-IsSome (get_elem? frame proto) _ (get_elem?-lt frame proto hp) (λ p.
          read-IsSome (parse_l4 frame next _) finished (parse_l4-IsSome frame next _ hn)
            finished-IsSome)))

parse_ipv4-IsSome : (frame : List ℕ) (m : PacketMeta) → IsSome (parse_ipv4 frame m)
unfolding parse_ipv4
parse_ipv4-IsSome frame m =
    branch-IsSome (ltb (length frame) (eth_hdr_len + ipv4_hdr_min)) _ _ (λ e. (_, refl))
      (λ e.
        read-IsSome (get_elem? frame eth_hdr_len) _ (get_elem?-lt frame eth_hdr_len (ground arith))
          (λ b.
            branch-IsSome
              (ltb ((b % 16) * 4) ipv4_hdr_min || ltb (length frame) (eth_hdr_len + (b % 16) * 4)) _
              _ (λ x. (_, refl))
              (λ x.
                parse_addresses-IsSome frame _ _ 4 _ _ false m (ground arith) (ground arith)
                  (ground arith) (ground arith))))

parse_ipv6-IsSome : (frame : List ℕ) (m : PacketMeta) → IsSome (parse_ipv6 frame m)
unfolding parse_ipv6
parse_ipv6-IsSome frame m =
    branch-IsSome (ltb (length frame) (eth_hdr_len + ipv6_hdr_len)) _ _ (λ e. (_, refl))
      (λ e.
        parse_addresses-IsSome frame _ _ 16 _ _ true m (ground arith) (ground arith) (ground arith)
          (ground arith))

-- Whatever bytes a frame holds, parsing it gives a packet or an error and reads no byte outside of
-- the frame.
pub parse_frame-IsSome : (frame : List ℕ) (umem_offset : ℕ) → IsSome (parse_frame frame umem_offset)
unfolding parse_frame
parse_frame-IsSome frame umem_offset =
    branch-IsSome (ltb (length frame) eth_hdr_len) _ _ (λ e. (_, refl))
      (λ e.
        read-IsSome (big_endian frame 12 2 0) _ (big_endian-le frame 12 2 0 (ground arith)) (λ t.
          branch-IsSome (t == eth_type_ipv4) _ _ (λ x. parse_ipv4-IsSome frame _)
            (λ x.
              branch-IsSome (t == eth_type_ipv6) _ _ (λ y. parse_ipv6-IsSome frame _)
                (λ y. (_, refl)))))
