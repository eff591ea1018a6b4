-- ===== src/Control/Startup.antt =====
-- The checks before an eBPF object is loaded, control-plane/control/failsafe.go: the kernel's
-- version, and the signature of the object. Files, the scanner, and the cryptography are parameters.
pub mod Signed
use Prim.Native.String.{String, ◌++◌ as append_text}
use falx_v.Base.{
  ℕ, zero, suc, ◌+◌, ◌-◌, ◌*◌, ◌%◌, Bool, true, false, not, ◌&&◌, ◌||◌, List, [], ◌∷◌, Option, none,
  some, ltb, leb, ◌==◌, if◌then◌else◌, length,
}

pub record KernelVersion : Type 0 where
  pub major : ℕ
  pub minor : ℕ

abbrev min_kernel_version : KernelVersion
min_kernel_version = record { major = 5; minor = 16 }

pub data StartupError : Type 0 where
  unreadable unparsable too_old : StartupError
  no_elf no_signature bad_der trailing_bytes invalid_signature : StartupError
  odd_length invalid_hex bad_key not_ecdsa wrong_curve : StartupError

-- The text of /proc/version, and the numbers that Sscanf finds in it.
unfoldable pub check_kernel_version :
    KernelVersion → Option String → (String → Option KernelVersion) → Option StartupError
check_kernel_version required none scan = some unreadable
check_kernel_version required (some text) scan = elim (scan text) [
  | none ↦ some unparsable
  | some found ↦
      if ltb found.major required.major
        || (found.major == required.major && ltb found.minor required.minor)
      then some too_old
      else none
]

-- The value of a hexadecimal digit, 255 for another character.
unfoldable pub from_hex_nibble : ℕ → ℕ
from_hex_nibble c =
    if leb 48 c && leb c 57
    then c - 48
    else if leb 97 c && leb c 102
    then c - 97 + 10
    else if leb 65 c && leb c 70
    then c - 65 + 10
    else 0xFF

-- A byte in front of what is decoded; an error takes the bytes with it.
cons_byte : ℕ → List ℕ × Option StartupError → List ℕ × Option StartupError
cons_byte b (bytes, none) = (b ∷ bytes, none)
cons_byte b (bytes, some e) = ([], some e)

-- The digits by pairs; no error is `none`.
hex_pairs : List ℕ → List ℕ × Option StartupError
hex_pairs [] = ([], none)
hex_pairs (h ∷ []) = ([], some odd_length)
hex_pairs (h ∷ l ∷ rest) =
    let hi = from_hex_nibble h in
    let lo = from_hex_nibble l in
    let decoded = cons_byte (hi * 16 + lo) (hex_pairs rest) in
    if ltb 15 hi || ltb 15 lo then ([], some invalid_hex) else decoded

unfoldable pub hex_decode : List ℕ → List ℕ × Option StartupError
unfolding hex_pairs cons_byte
hex_decode h = if length h % 2 == 0 then hex_pairs h else ([], some odd_length)

pub data KeyKind : Type 0 where
  ecdsa_p256 ecdsa_other other_key : KeyKind

-- os.ReadFile, sha256.Sum256, asn1.Unmarshal with the rest, ecdsa.Verify, and the parse of a key. A
-- signature without one of its numbers does not unmarshal.
pub record Crypto (Key Sig : Type 0) : Type 0 where
  pub read_file : String → Option (List ℕ)
  pub sum256 : List ℕ → List ℕ
  pub unmarshal : List ℕ → Option (Sig × List ℕ)
  pub verify_digest : Key → List ℕ → Sig → Bool
  pub parse_key : List ℕ → Option (Key × KeyKind)

module _ {Key Sig : Type 0} (C : Crypto Key Sig) where
  pub data NewVerifier : Type 0 where
    verifier : Key → NewVerifier
    no_verifier : StartupError → NewVerifier

  key_of : Key → KeyKind → NewVerifier
  key_of k ecdsa_p256 = verifier k
  key_of k ecdsa_other = no_verifier wrong_curve
  key_of k other_key = no_verifier not_ecdsa

  unfoldable pub new_elf_verifier : List ℕ → NewVerifier
  unfolding key_of
  new_elf_verifier embedded_public_key_hex =
      let (der, err) = hex_decode embedded_public_key_hex in
      elim err [
        | some e ↦ no_verifier e
        | none ↦ elim (C.parse_key der) [
          | none ↦ no_verifier bad_key
          | some (k, kind) ↦ key_of k kind
        ]
      ]

  unfoldable pub verify : Key → String → Option StartupError
  verify pub_key elf_path = elim (C.read_file elf_path) [
    | none ↦ some no_elf
    | some elf_data ↦ elim (C.read_file (append_text elf_path ".sig")) [
      | none ↦ some no_signature
      | some sig_der ↦ elim (C.unmarshal sig_der) [
        | none ↦ some bad_der
        | some (sig, rest) ↦
            if not (length rest == 0)
            then some trailing_bytes
            else if C.verify_digest pub_key (C.sum256 elf_data) sig
            then none
            else some invalid_signature
      ]
    ]
  ]
