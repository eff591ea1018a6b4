-- ===== src/Tests/Policy.antt =====
-- A rule for one source, evaluated and applied.
use falx_v.Base.{ℕ, ◌≡◌, ◌≢◌, ◌↔◌, true, false, [], ◌∷◌, none, some}
use falx_v.Base.Integers.{pos}
use falx_v.Policy.Rule.{Rule, Flow, Parsers, action_block, cond_dst_port, op_eq, no_logic, match}
use falx_v.Policy.Rule.Matching.{Holds, match_iff}
use falx_v.Policy.Engine.{PolicyEngine, apply_rule}
use falx_v.Tests.World.{World, kernel}
use falx_v.Tests.Data.{at_second, attacker, manager}

-- Every text reads as the number 53.
abbrev parsers : Parsers
parsers = record {
  cidr_contains = λ value ip. none;
  parse_ip = λ value. none;
  ip_equal = λ a b. false;
  scan_uint16 = λ value. 53;
  scan_range = λ value. (53, 53);
  scan_uint64 = λ value. 53;
  decimal = λ n. "";
  same_text = λ s t. false;
  in_commas = λ s. s;
}

abbrev dns : Rule
dns = record {
  id = "r1";
  name = "dns flood";
  priority = pos 100;
  enabled = true;
  action = action_block;
  conditions = record { type = cond_dst_port; operator = op_eq; value = "53" } ∷ [];
  cond_logic = no_logic;
  ttl_seconds = 60;
  rule_id = 7;
  reason = "dns";
}

abbrev flow : ℕ → Flow
flow port = record {
  src_ip = some attacker;
  dst_ip = none;
  src_port = 4_000;
  dst_port = port;
  protocol = 17;
  threat_score = 90;
  pps = 0;
  bps = 0;
}

abbrev policy : PolicyEngine World
policy = record {
  bpf_mgr = manager;
  bus = [];
  rules = dns ∷ [];
  recorded = [];
  total_evals = 0;
  total_hits = 0;
  total_apply = 0;
}

match_iff_example :
    (match parsers dns (flow 53) ≡ true)
    ↔ (dns.enabled ≡ true)
      × (dns.conditions ≢ [])
      × Holds parsers dns.cond_logic dns.conditions (flow 53)
match_iff_example = match_iff parsers dns (flow 53)

abbrev applied : PolicyEngine World
applied = (apply_rule kernel policy (at_second 1) dns (flow 53) "policy").0
