-- ===== src/Policy/Engine/Application.antt =====
-- What applying a rule does to the blocklist.
use Prim.Native.String.{String}
use falx_v.Base.{ℕ, ◌+◌, ◌^◌, ◌<◌, ◌≡◌, inl, inr, true, none, some, Bool-cases, arith}
use falx_v.Base.Time.{unix}
use falx_v.Bpfmaps.Types.{IpAddr}
use falx_v.Bpfmaps.Kernel.{KernelMaps, UpdateLaws}
use falx_v.Bpfmaps.Manager.{block_ipv4, is_blocked_ipv4}
use falx_v.Bpfmaps.Manager.Blocklist.{block_ipv4-ttl}
use falx_v.Policy.Rule.{Rule, Flow, action_block}
use falx_v.Policy.Engine.{PolicyEngine, block_entry, settled, publish, apply_rule}

module _ {W : Type 0} (K : KernelMaps W) where
  -- After a block rule was applied without an error to a flow with a source address, that address
  -- is blocked, if the rule's time to live is below 10⁹ seconds.
  pub apply_rule-block :
      (e e' : PolicyEngine W) (now : ℕ) (r : Rule) (f : Flow) (ip : IpAddr) (actor : String)
      → UpdateLaws K.blocklist_v4
      → r.action ≡ action_block
      → f.src_ip ≡ some ip
      → r.ttl_seconds < 1_000_000_000
      → unix now + r.ttl_seconds < 2 ^ 64
      → apply_rule K e now r f actor ≡ (e', none)
      → (is_blocked_ipv4 K e'.bpf_mgr now ip).0 ≡ true
  unfolding apply_rule block_entry settled publish
  apply_rule-block e e' now r f ip actor laws a s small fits h =
      elim (Bool-cases (is_blocked_ipv4 K e.bpf_mgr now ip).0) [
        | inl already ↦ ground arith
        | inr fresh ↦
            let done : block_ipv4 K e.bpf_mgr now ip (block_entry r f) actor ≡ (e'.bpf_mgr, none) =
              ground arith in
            (block_ipv4-ttl K e.bpf_mgr e'.bpf_mgr now now ip (block_entry r f) actor laws done
                small fits).1
              (ground arith)
      ]
