-- ===== src/Tests/Packet.antt =====
-- A datagram of four bytes, and one whose header names more words than the frame has.
use falx_v.Base.{ℕ, ◌≡◌, refl, List, [], ◌∷◌, ◌++◌, some}
use falx_v.Base.Bytes.{IsSome, big_endian, get_elem?}
use falx_v.Afxdp.Packet.{parse_frame, parse_ipv4, malformed, invalid_ihl}
use falx_v.Afxdp.Packet.Reads.{parse_frame-IsSome}

abbrev macs : List ℕ
macs = 0 ∷ 0 ∷ 0 ∷ 0 ∷ 0 ∷ 1 ∷ 0 ∷ 0 ∷ 0 ∷ 0 ∷ 0 ∷ 2 ∷ []

abbrev frame_with : ℕ → List ℕ
frame_with first =
    macs
    ++ 8 ∷ 0 ∷ first ∷ 0 ∷ 0 ∷ 32 ∷ 0 ∷ 0 ∷ 0 ∷ 0 ∷ 64 ∷ 17 ∷ 0 ∷ 0 ∷ 10 ∷ 0 ∷ 0 ∷ 1 ∷ 10 ∷ 0 ∷ 0
      ∷ 2 ∷ 1 ∷ 2 ∷ 0 ∷ 53 ∷ 0 ∷ 12 ∷ 0 ∷ 0 ∷ 7 ∷ 8 ∷ 9 ∷ 10 ∷ []

invalid_words : parse_frame (frame_with 79) 0 ≡ some (malformed invalid_ihl)
unfolding parse_frame parse_ipv4 big_endian get_elem?
invalid_words = refl

parse_frame-IsSome_example : IsSome (parse_frame (frame_with 69) 4096)
parse_frame-IsSome_example = parse_frame-IsSome (frame_with 69) 4096
