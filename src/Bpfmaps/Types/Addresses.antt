-- ===== src/Bpfmaps/Types/Addresses.antt =====
-- IPv4 addresses and their map keys.
use falx_v.Base.{ℕ, ◌<◌, ◌^◌, ◌+◌, ◌*◌, ◌≡◌, [], ◌∷◌, some, All, length, arith}
use falx_v.Bpfmaps.Types.{IpAddr, to4, ipv4_to_uint32, uint32_to_ipv4}

-- A key goes to an address and back unchanged.
pub ipv4_to_uint32-uint32_to_ipv4 :
    (n : ℕ) → n < 2 ^ 32 → ipv4_to_uint32 (uint32_to_ipv4 n) ≡ some n
unfolding ipv4_to_uint32 uint32_to_ipv4
ipv4_to_uint32-uint32_to_ipv4 n h = ground arith

key_of_bytes :
    (a b c d : ℕ)
    → a < 256
    → b < 256
    → c < 256
    → d < 256
    → uint32_to_ipv4 (a * 2 ^ 24 + b * 2 ^ 16 + c * 2 ^ 8 + d) ≡ a ∷ b ∷ c ∷ d ∷ []
unfolding uint32_to_ipv4
key_of_bytes a b c d ha hb hc hd = ground arith

to4-length : (ip ip4 : IpAddr) → to4 ip ≡ some ip4 → length ip4 ≡ 4
unfolding to4
to4-length (a ∷ b ∷ c ∷ d ∷ []) ip4 h = ground arith
to4-length (z0 ∷ z1 ∷ z2 ∷ z3 ∷ z4 ∷ z5 ∷ z6 ∷ z7 ∷ z8 ∷ z9 ∷ m ∷ n ∷ a ∷ b ∷ c ∷ d ∷ []) ip4 h =
    ground arith
to4-length _ ip4 h = cc

-- The address of a key is the IPv4 form of the address that the key was made from, whether that
-- was given by four bytes or mapped into sixteen.
pub uint32_to_ipv4-ipv4_to_uint32 :
    (ip ip4 : IpAddr) (k : ℕ)
    → to4 ip ≡ some ip4
    → All (λ b. b < 256) ip4
    → ipv4_to_uint32 ip ≡ some k
    → uint32_to_ipv4 k ≡ ip4
unfolding ipv4_to_uint32
uint32_to_ipv4-ipv4_to_uint32 ip (a ∷ b ∷ c ∷ d ∷ []) k h w e = ground (arith, key_of_bytes a b c d)
uint32_to_ipv4-ipv4_to_uint32 ip ip4 k h w e = absurd (ground (arith, to4-length ip ip4))
