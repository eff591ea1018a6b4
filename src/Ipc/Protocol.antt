-- ===== src/Ipc/Protocol.antt =====
-- The wire format, control-plane/internal/ipc/protocol.go, and the frames on a connection,
-- framing.go. A byte is a number below 256. The CRC-32 of hash/crc32 is a parameter: the checksum
-- of all the bytes written to it.
pub mod Roundtrip
pub mod Written
use falx_v.Base.{
  ℕ, ◌+◌, ◌*◌, ◌/◌, ◌%◌, ◌^◌, Bool, true, false, not, ◌||◌, List, [], ◌∷◌, ◌++◌, Option, none, some,
  ltb, ◌==◌, if◌then◌else◌, length, take, drop,
}

pub data Result (E A : Type 0) : Type 0 where
  ok : A → Result E A
  failed : E → Result E A

pub data HeaderError : Type 0 where
  invalid_magic unsupported_version payload_too_long : HeaderError

pub data ReadError : Type 0 where
  header_read payload_read : ReadError
  header_parse : HeaderError → ReadError

abbrev pub magic_bytes : List ℕ
magic_bytes = 0x46 ∷ 0x4C ∷ 0x58 ∷ 0x32 ∷ []

abbrev pub protocol_version : ℕ
protocol_version = 1

abbrev pub header_size : ℕ
header_size = 20

abbrev pub max_payload_size : ℕ
max_payload_size = 1_048_576

pub record FrameHeader : Type 0 where
  pub magic : List ℕ
  pub version : ℕ
  pub msg_type : ℕ
  pub flags : ℕ
  pub seq : ℕ
  pub len : ℕ
  pub crc : ℕ

pub record Frame : Type 0 where
  pub header : FrameHeader
  pub payload : List ℕ

-- binary.LittleEndian.
abbrev pub put_uint16 : ℕ → List ℕ
put_uint16 n = n % 256 ∷ n / 256 % 256 ∷ []

abbrev pub put_uint32 : ℕ → List ℕ
put_uint32 n = n % 256 ∷ n / 256 % 256 ∷ n / 65_536 % 256 ∷ n / 16_777_216 % 256 ∷ []

-- The first sixteen bytes, which the checksum covers, and all twenty.
unfoldable pub marshal_covered : FrameHeader → List ℕ
marshal_covered h =
    h.magic ++ h.version ∷ h.msg_type ∷ put_uint16 h.flags ++ put_uint32 h.seq ++ put_uint32 h.len

unfoldable pub marshal : FrameHeader → List ℕ
marshal h = marshal_covered h ++ put_uint32 h.crc

-- The comparison of two arrays of four bytes.
is_magic : List ℕ → Bool
is_magic (a ∷ b ∷ c ∷ d ∷ []) =
    if a == 0x46
    then (if b == 0x4C then (if c == 0x58 then d == 0x32 else false) else false)
    else false
is_magic _ = false

-- The array has twenty bytes; a list of another length does not occur.
unfoldable pub unmarshal_header : List ℕ → Result HeaderError FrameHeader
unfolding is_magic
unmarshal_header
      (m₀ ∷ m₁ ∷ m₂ ∷ m₃ ∷ v ∷ t ∷ f₀ ∷ f₁ ∷ s₀ ∷ s₁ ∷ s₂ ∷ s₃ ∷ l₀ ∷ l₁ ∷ l₂ ∷ l₃ ∷ c₀ ∷ c₁ ∷ c₂
        ∷ c₃ ∷ []) =
    let len = l₀ + 256 * l₁ + 65_536 * l₂ + 16_777_216 * l₃ in
    if not (is_magic (m₀ ∷ m₁ ∷ m₂ ∷ m₃ ∷ []))
    then failed invalid_magic
    else if not (v == protocol_version)
    then failed unsupported_version
    else if ltb max_payload_size len
    then failed payload_too_long
    else ok (record {
      magic = m₀ ∷ m₁ ∷ m₂ ∷ m₃ ∷ [];
      version = v;
      msg_type = t;
      flags = f₀ + 256 * f₁;
      seq = s₀ + 256 * s₁ + 65_536 * s₂ + 16_777_216 * s₃;
      len = len;
      crc = c₀ + 256 * c₁ + 65_536 * c₂ + 16_777_216 * c₃;
    })
unmarshal_header _ = failed invalid_magic

-- The bytes that are left on the connection come back with the frame.
unfoldable pub read_frame : List ℕ → Result ReadError (Frame × List ℕ)
read_frame stream =
    if ltb (length stream) header_size
    then failed header_read
    else elim (unmarshal_header (take header_size stream)) [
      | failed e ↦ failed (header_parse e)
      | ok h ↦
          let rest = drop header_size stream in
          if ltb (length rest) h.len
          then failed payload_read
          else ok (record { header = h; payload = take h.len rest }, drop h.len rest)
    ]

unfoldable pub write_frame : Frame → List ℕ
write_frame f = marshal f.header ++ f.payload

module _ (crc32 : List ℕ → ℕ) where
  unfoldable pub build_frame : ℕ → ℕ → ℕ → List ℕ → Frame
  build_frame msg_type seq flags payload =
      let h : FrameHeader = record {
        magic = magic_bytes;
        version = protocol_version;
        msg_type = msg_type;
        flags = flags;
        seq = seq;
        len = length payload % 2 ^ 32;
        crc = 0;
      } in
      record { header = record h { crc = crc32 (marshal_covered h ++ payload) }; payload = payload }

  -- `true` stands for the nil error.
  unfoldable pub validate : Frame → Bool
  validate f = crc32 (marshal_covered f.header ++ f.payload) == f.header.crc
