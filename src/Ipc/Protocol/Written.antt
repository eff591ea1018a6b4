-- ===== src/Ipc/Protocol/Written.antt =====
-- A frame that was read was written by those bytes.
use falx_v.Base.{
  ℕ, zero, suc, ◌+◌, ◌*◌, ◌/◌, ◌%◌, ◌<◌, ◌≡◌, refl, ◌⊎◌, inl, inr, List, [], ◌∷◌, ◌++◌, take, drop,
  take-append-drop, append_assoc, arith, All,
}
use falx_v.Ipc.Protocol.{
  Result, ok, failed, FrameHeader, Frame, header_size, marshal_covered, marshal, unmarshal_header,
  read_frame, write_frame,
}

-- The bytes of a number that was put together from bytes.
split16 :
    (a b : ℕ) → a < 256 → b < 256 → ((a + 256 * b) % 256 ≡ a) × ((a + 256 * b) / 256 % 256 ≡ b)
split16 a b ha hb = (omega arith, omega arith)

split32 :
    (a b c d : ℕ)
    → a < 256
    → b < 256
    → c < 256
    → d < 256
    → let n = a + 256 * b + 65_536 * c + 16_777_216 * d in
      (n % 256 ≡ a) × (n / 256 % 256 ≡ b) × (n / 65_536 % 256 ≡ c) × (n / 16_777_216 % 256 ≡ d)
split32 a b c d ha hb hc hd = (omega arith, omega arith, omega arith, omega arith)

marshal-unmarshal_header :
    (bytes : List ℕ) (h : FrameHeader)
    → unmarshal_header bytes ≡ ok h
    → All (λ b. b < 256) bytes
    → marshal h ≡ bytes
unfolding unmarshal_header marshal marshal_covered
marshal-unmarshal_header
      (m₀ ∷ m₁ ∷ m₂ ∷ m₃ ∷ v ∷ t ∷ f₀ ∷ f₁ ∷ s₀ ∷ s₁ ∷ s₂ ∷ s₃ ∷ l₀ ∷ l₁ ∷ l₂ ∷ l₃ ∷ c₀ ∷ c₁ ∷ c₂
        ∷ c₃ ∷ [])
      h e
      (
        a0,
        (
          a1,
          (
            a2,
            (
              a3,
              (
                a4,
                (
                  a5,
                  (
                    a6,
                    (a7, (a8, (a9, (b0, (b1, (b2, (b3, (b4, (b5, (b6, (b7, (b8, (b9, _))))))))))))),
                  ),
                ),
              ),
            ),
          ),
        ),
      ) =
    let parsed : FrameHeader = record {
      magic = m₀ ∷ m₁ ∷ m₂ ∷ m₃ ∷ [];
      version = v;
      msg_type = t;
      flags = f₀ + 256 * f₁;
      seq = s₀ + 256 * s₁ + 65_536 * s₂ + 16_777_216 * s₃;
      len = l₀ + 256 * l₁ + 65_536 * l₂ + 16_777_216 * l₃;
      crc = c₀ + 256 * c₁ + 65_536 * c₂ + 16_777_216 * c₃;
    } in
    let same : parsed ≡ h = ground arith in
    let (x₀, x₁) = split16 f₀ f₁ a6 a7 in
    let (y₀, y₁, y₂, y₃) = split32 s₀ s₁ s₂ s₃ a8 a9 b0 b1 in
    let (z₀, z₁, z₂, z₃) = split32 l₀ l₁ l₂ l₃ b2 b3 b4 b5 in
    let (w₀, w₁, w₂, w₃) = split32 c₀ c₁ c₂ c₃ b6 b7 b8 b9 in
    rw (← same, x₀, x₁, y₀, y₁, y₂, y₃, z₀, z₁, z₂, z₃, w₀, w₁, w₂, w₃) refl
marshal-unmarshal_header _ h e a = cc

All-take : (P : ℕ → Type 0) (n : ℕ) (xs : List ℕ) → All P xs → All P (take n xs)
All-take P zero xs h = _
All-take P (suc n) [] h = _
All-take P (suc n) (x ∷ xs) h = (h.0, All-take P n xs h.1)

Result-cases : {E A : Type 0} (r : Result E A) → ((e : E) × (r ≡ failed e)) ⊎ ((a : A) × (r ≡ ok a))
Result-cases (failed e) = inl (e, refl)
Result-cases (ok a) = inr (a, refl)

-- A frame that is read from a connection was written there byte for byte: writing it again gives
-- the bytes that were taken off, and what was behind them is left.
pub write_frame-read_frame :
    (stream rest : List ℕ) (f : Frame)
    → All (λ b. b < 256) stream
    → read_frame stream ≡ ok (f, rest)
    → write_frame f ++ rest ≡ stream
unfolding read_frame write_frame
write_frame-read_frame stream rest f bytes h =
    elim (Result-cases (unmarshal_header (take header_size stream))) [
      | inl (x, e) ↦ absurd (ground arith)
      | inr (hdr, e) ↦
          let behind = drop header_size stream in
          let is_f : record { header = hdr; payload = take hdr.len behind } ≡ f = ground arith in
          let is_rest : drop hdr.len behind ≡ rest = ground arith in
          let head =
            marshal-unmarshal_header (take header_size stream) hdr e
              (All-take (λ b. b < 256) header_size stream bytes) in
          rw (← is_f, ← is_rest, append_assoc, take-append-drop hdr.len behind, head)
            (take-append-drop header_size stream)
    ]
