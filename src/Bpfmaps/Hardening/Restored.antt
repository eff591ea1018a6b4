-- ===== src/Bpfmaps/Hardening/Restored.antt =====
-- The rollback of a batch restores what lookups say, but for entries that were evicted.
use Prim.Native.String.{String, ◌++◌ as append_text}
use falx_v.Base.{ℕ, ◌+◌, ◌≡◌, ◌⊎◌, false, none}
use falx_v.Bpfmaps.Kernel.{KernelMaps}
use falx_v.Bpfmaps.Manager.{Manager, zero_entry}
use falx_v.Bpfmaps.Hardening.{Texts, HardenedWriter, refreshed}
use falx_v.Bpfmaps.Hardening.Rollback.{view}

-- The state in which WriteBatch begins its loop.
abbrev pub begun : {W : Type 0} → ℕ → HardenedWriter W → ℕ → HardenedWriter W
begun now h n = let h' = refreshed h now in record h' { window_count = h'.window_count + n }

module _ {W : Type 0} (K : KernelMaps W) (T : Texts) where
  -- Two states of the kernel: the blocklist of the first says of every key what that of the second
  -- says, or that it is not blocked.
  abbrev AtMost : W → W → ℕ → Type 0
  AtMost w w' now =
      (key : ℕ)
      → (view K T w now key ≡ view K T w' now key)
        ⊎ (view K T w now key ≡ (false, zero_entry, none))
