-- ===== src/Ipc/Protocol/Roundtrip.antt =====
-- A frame that was written is read back.
use falx_v.Base.{
  ℕ, ◌+◌, ◌*◌, ◌/◌, ◌%◌, ◌^◌, ◌≤◌, ◌<◌, ◌≡◌, refl, sym, true, false, List, ◌++◌, ltb, length, take,
  drop, take-append_length, drop-append_length, length-append, append_assoc, arith,
}
use falx_v.Ipc.Protocol.{
  ok, FrameHeader, magic_bytes, protocol_version, header_size, max_payload_size, marshal_covered,
  marshal, unmarshal_header, read_frame, write_frame, build_frame, validate,
}

bytes16 : (n : ℕ) → n < 2 ^ 16 → n % 256 + 256 * (n / 256 % 256) ≡ n
bytes16 n h = omega arith

bytes32 :
    (n : ℕ)
    → n < 2 ^ 32
    → n % 256
        + 256 * (n / 256 % 256)
        + 65_536 * (n / 65_536 % 256)
        + 16_777_216 * (n / 16_777_216 % 256)
      ≡ n
bytes32 n h = omega arith

-- A header of this version of the protocol.
abbrev header_of : ℕ → ℕ → ℕ → ℕ → ℕ → FrameHeader
header_of msg_type flags seq len crc = record {
  magic = magic_bytes;
  version = protocol_version;
  msg_type = msg_type;
  flags = flags;
  seq = seq;
  len = len;
  crc = crc;
}

unmarshal_header-marshal :
    (msg_type flags seq len crc : ℕ)
    → flags < 2 ^ 16
    → seq < 2 ^ 32
    → len ≤ max_payload_size
    → crc < 2 ^ 32
    → unmarshal_header (marshal (header_of msg_type flags seq len crc))
      ≡ ok (header_of msg_type flags seq len crc)
unfolding unmarshal_header marshal marshal_covered
unmarshal_header-marshal msg_type flags seq len crc hf hs hl hc =
    let small : ltb max_payload_size len ≡ false = ground arith in
    rw (bytes32 len (omega arith), small, bytes16 flags hf, bytes32 seq hs, bytes32 crc hc) refl

length-marshal :
    (msg_type flags seq len crc : ℕ) → length (marshal (header_of msg_type flags seq len crc)) ≡ 20
unfolding marshal marshal_covered
length-marshal msg_type flags seq len crc = refl

read_frame-append :
    (h : FrameHeader) (payload rest : List ℕ)
    → length (marshal h) ≡ header_size
    → unmarshal_header (marshal h) ≡ ok h
    → length payload ≡ h.len
    → read_frame (marshal h ++ (payload ++ rest))
      ≡ ok (record { header = h; payload = payload }, rest)
unfolding read_frame
read_frame-append h payload rest n u l =
    let long : ltb (length (marshal h ++ (payload ++ rest))) header_size ≡ false =
      ground (arith, length-append (marshal h) (payload ++ rest)) in
    let head : take header_size (marshal h ++ (payload ++ rest)) ≡ marshal h =
      rw (← n) (take-append_length (marshal h) (payload ++ rest)) in
    let tail : drop header_size (marshal h ++ (payload ++ rest)) ≡ payload ++ rest =
      rw (← n) (drop-append_length (marshal h) (payload ++ rest)) in
    let full : ltb (length (payload ++ rest)) (length payload) ≡ false =
      ground (arith, length-append payload rest) in
    rw
      (
        long,
        head,
        u,
        tail,
        ← l,
        full,
        take-append_length payload rest,
        drop-append_length payload rest,
      )
      refl

-- A payload of a legal length is counted exactly.
build_frame-header :
    (crc32 : List ℕ → ℕ) (msg_type seq flags : ℕ) (payload : List ℕ)
    → length payload ≤ max_payload_size
    → (crc : ℕ) × (build_frame crc32 msg_type seq flags payload
        ≡ record { header = header_of msg_type flags seq (length payload) crc; payload = payload })
      × (crc ≡ crc32 (marshal_covered (header_of msg_type flags seq (length payload) 0) ++ payload))
unfolding build_frame
build_frame-header crc32 msg_type seq flags payload hl =
    let short : length payload % 2 ^ 32 ≡ length payload = omega arith in (_, rw short refl, refl)

-- The checksum does not cover its own field.
covered_crc :
    (msg_type flags seq len crc : ℕ)
    → marshal_covered (header_of msg_type flags seq len crc)
      ≡ marshal_covered (header_of msg_type flags seq len 0)
unfolding marshal_covered
covered_crc msg_type flags seq len crc = refl

-- A frame that BuildFrame makes, of a payload of at most 1 MiB, passes the checksum, and is read
-- back from the bytes that are written, whatever follows them on the connection, which is left
-- there.
pub read_frame-write_frame :
    (crc32 : List ℕ → ℕ) (msg_type seq flags : ℕ) (payload rest : List ℕ)
    → ((bytes : List ℕ) → crc32 bytes < 2 ^ 32)
    → flags < 2 ^ 16
    → seq < 2 ^ 32
    → length payload ≤ max_payload_size
    → (read_frame (write_frame (build_frame crc32 msg_type seq flags payload) ++ rest)
        ≡ ok (build_frame crc32 msg_type seq flags payload, rest))
      × (validate crc32 (build_frame crc32 msg_type seq flags payload) ≡ true)
unfolding write_frame validate
read_frame-write_frame crc32 msg_type seq flags payload rest hc hf hs hl =
    let (crc, e, ec) = build_frame-header crc32 msg_type seq flags payload hl in
    let h = header_of msg_type flags seq (length payload) crc in
    let fits : crc < 2 ^ 32 = rw ec (hc _) in
    let sum : crc32 (marshal_covered h ++ payload) ≡ crc =
      rw (covered_crc msg_type flags seq (length payload) crc) (sym ec) in
    rw e (
      rw (append_assoc (marshal h) payload rest) (
          read_frame-append h payload rest (length-marshal msg_type flags seq (length payload) crc)
            (unmarshal_header-marshal msg_type flags seq (length payload) crc hf hs hl fits) refl),
      ground arith,
    )
