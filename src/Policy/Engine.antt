-- ===== src/Policy/Engine.antt =====
-- The policy engine, control-plane/pkg/policy/engine.go. The rules are those that the database
-- yields, in its order: the highest priority first, and the older rule first among equals. The hits
-- that are recorded in the background are kept as a list of rules. The reports of conflicting rules
-- are log lines only.
pub mod Evaluation
pub mod Application
use Prim.Native.String.{String}
use falx_v.Base.{
  ℕ, ◌+◌, ◌%◌, ◌^◌, Bool, true, false, List, [], ◌∷◌, ◌++◌, Option, none, some, if◌then◌else◌,
}
use falx_v.Bpfmaps.Types.{IpAddr, BlockEntry, action_drop, action_redirect, reason_ai_verdict}
use falx_v.Bpfmaps.Kernel.{KernelMaps}
use falx_v.Bpfmaps.Audit.{MapError}
use falx_v.Bpfmaps.Manager.{Manager, block_ipv4, unblock_ipv4, is_blocked_ipv4}
use falx_v.Bpfmaps.Manager.More.{reset_rate_bucket}
use falx_v.Policy.Rule.{
  RuleAction, action_block, action_allow, action_redirect as rule_redirect, action_rate_limit,
  action_alert, Rule, Flow, Parsers, match,
}

-- A threat alert carries the score of which the code takes the hundredth.
pub data PolicyEvent : Type 0 where
  ip_blocked : IpAddr → String → String → ℕ → PolicyEvent
  ip_unblocked : IpAddr → String → PolicyEvent
  threat_alert : IpAddr → String → ℕ → PolicyEvent

pub record PolicyEngine (W : Type 0) : Type 0 where
  pub bpf_mgr : Manager W
  pub bus : List PolicyEvent
  pub rules : List Rule
  pub recorded : List String
  pub total_evals : ℕ
  pub total_hits : ℕ
  pub total_apply : ℕ

abbrev pub u64 : ℕ → ℕ
u64 n = n % 2 ^ 64

-- The loop over the rules.
unfoldable pub first_match : Parsers → List Rule → Flow → Option Rule
first_match P [] f = none
first_match P (r ∷ rs) f = let rest = first_match P rs f in if match P r f then some r else rest

block_entry : Rule → Flow → BlockEntry
block_entry r f = record {
  action = action_drop;
  rule_id = r.rule_id;
  threat_score = f.threat_score;
  expire_at = r.ttl_seconds;
  reason = reason_ai_verdict;
}

redirect_entry : Rule → BlockEntry
redirect_entry r = record {
  action = action_redirect;
  rule_id = r.rule_id;
  threat_score = 0;
  expire_at = r.ttl_seconds;
  reason = reason_ai_verdict;
}

module _ {W : Type 0} where
  hit : PolicyEngine W → Option Rule → PolicyEngine W
  hit e none = e
  hit e (some r) = record e {
    total_hits = u64 (e.total_hits + 1);
    recorded = e.recorded ++ r.id ∷ [];
  }

  unfoldable pub evaluate : Parsers → PolicyEngine W → Flow → PolicyEngine W × Option Rule
  unfolding hit
  evaluate P e f =
      let found = first_match P e.rules f in
      (hit (record e { total_evals = u64 (e.total_evals + 1) }) found, found)

  publish : PolicyEngine W → PolicyEvent → PolicyEngine W
  publish e ev = record e { bus = e.bus ++ ev ∷ [] }

  -- The manager after a call, with the event of a call without an error.
  settled : PolicyEngine W → Manager W × Option MapError → PolicyEvent → PolicyEngine W
  settled e (m, none) ev = publish (record e { bpf_mgr = m }) ev
  settled e (m, some x) ev = record e { bpf_mgr = m }

module _ {W : Type 0} (K : KernelMaps W) where
  -- The cases of the action, for a flow with a source address.
  apply_action :
      RuleAction
      → PolicyEngine W
      → ℕ
      → Rule
      → Flow
      → IpAddr
      → String
      → PolicyEngine W × Option MapError
  apply_action action_block e now r f ip actor =
      if (is_blocked_ipv4 K e.bpf_mgr now ip).0
      then (e, none)
      else (let done = block_ipv4 K e.bpf_mgr now ip (block_entry r f) actor in
          (settled e done (ip_blocked ip actor r.reason r.ttl_seconds), done.1))
  apply_action action_allow e now r f ip actor =
      let done = unblock_ipv4 K e.bpf_mgr now ip actor in
      (settled e done (ip_unblocked ip actor), none)
  apply_action rule_redirect e now r f ip actor =
      let done = block_ipv4 K e.bpf_mgr now ip (redirect_entry r) actor in
      (record e { bpf_mgr = done.0 }, done.1)
  apply_action action_alert e now r f ip actor =
      (publish e (threat_alert ip r.reason f.threat_score), none)
  apply_action action_rate_limit e now r f ip actor =
      let done = reset_rate_bucket K e.bpf_mgr now ip actor in
      (record e { bpf_mgr = done.0 }, done.1)
  apply_action _ e now r f ip actor = (e, none)

  unfoldable pub apply_rule :
      PolicyEngine W → ℕ → Rule → Flow → String → PolicyEngine W × Option MapError
  unfolding apply_action settled publish block_entry redirect_entry
  apply_rule e now r f actor = elim f.src_ip [
    | none ↦ (e, none)
    | some ip ↦
        apply_action r.action (record e { total_apply = u64 (e.total_apply + 1) }) now r f ip actor
  ]

  apply_found : PolicyEngine W → ℕ → Option Rule → Flow → String → PolicyEngine W × Option MapError
  apply_found e now none f actor = (e, none)
  apply_found e now (some r) f actor = apply_rule e now r f actor

  unfoldable pub evaluate_and_apply_batch :
      Parsers → PolicyEngine W → ℕ → List Flow → String → PolicyEngine W × List (Option MapError)
  unfolding apply_found
  evaluate_and_apply_batch P e now [] actor = (e, [])
  evaluate_and_apply_batch P e now (f ∷ fs) actor =
      let (e', found) = evaluate P e f in
      let (e'', err) = apply_found e' now found f actor in
      let (e''', errs) = evaluate_and_apply_batch P e'' now fs actor in (e''', err ∷ errs)
