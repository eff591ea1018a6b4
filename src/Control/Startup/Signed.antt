-- ===== src/Control/Startup/Signed.antt =====
-- What passes the checks at the start.
use Prim.Native.String.{String, ◌++◌ as append_text}
use falx_v.Base.{
  ℕ, ◌≡◌, ◌<◌, ◌≤◌, true, List, [], ◌∷◌, Option, none, some, arith, ◌⊎◌, ◌↔◌, Option-cases, inl,
  inr,
}
use falx_v.Control.Startup.{KernelVersion, check_kernel_version, Crypto, verify}

-- An object passes only if its file and its signature file are there, the signature is one DER value
-- without a byte behind it, and the key verifies it over the digest of the file.
pub verify-eq-none :
    {Key Sig : Type 0} (C : Crypto Key Sig) (key : Key) (elf_path : String)
    → verify C key elf_path ≡ none
    → (elf : List ℕ) × (der : List ℕ) × (sig : Sig) × (C.read_file elf_path ≡ some elf)
      × (C.read_file (append_text elf_path ".sig") ≡ some der)
      × (C.unmarshal der ≡ some (sig, []))
      × (C.verify_digest key (C.sum256 elf) sig ≡ true)
unfolding verify
verify-eq-none C key elf_path h = elim (Option-cases (C.read_file elf_path)) [
  | inl e ↦ absurd (ground arith)
  | inr (elf, e) ↦ elim (Option-cases (C.read_file (append_text elf_path ".sig"))) [
    | inl s ↦ absurd (ground arith)
    | inr (der, s) ↦ elim (Option-cases (C.unmarshal der)) [
      | inl u ↦ absurd (ground arith)
      | inr ((sig, []), u) ↦ (elf, der, sig, e, s, u, ground arith)
      | inr ((sig, x ∷ rest), u) ↦ absurd (ground arith)
    ]
  ]
]

-- A kernel passes exactly when its version is read and at least the one required.
pub check_kernel_version_iff :
    (required found : KernelVersion) (text : String) (scan : String → Option KernelVersion)
    → scan text ≡ some found
    → (check_kernel_version required (some text) scan ≡ none) ↔ (
        (required.major < found.major)
        ⊎ ((required.major ≡ found.major) × (required.minor ≤ found.minor)))
unfolding check_kernel_version
check_kernel_version_iff required found text scan e = ground arith
