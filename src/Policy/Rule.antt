-- ===== src/Policy/Rule.antt =====
-- Policy rules, control-plane/pkg/policy/rule.go. A string that the code compares with constants
-- is a data type of those constants, with one constructor for every other text. The parsers of the
-- standard library that read a condition's value are a parameter. The fields that nothing here
-- reads, the texts and times of the administration, are left out.
pub mod Matching
use Prim.Native.String.{String, len as string_length}
use falx_v.Base.{
  ℕ, Bool, true, false, not, ◌&&◌, ◌||◌, List, [], ◌∷◌, Option, none, some, ltb, leb, ◌==◌,
  if◌then◌else◌, length,
}
use falx_v.Base.Integers.{ℤ, pos, negsuc}
use falx_v.Bpfmaps.Types.{IpAddr}

pub data RuleAction : Type 0 where
  action_block action_allow action_redirect action_rate_limit action_alert : RuleAction
  no_action other_action : RuleAction

pub data ConditionType : Type 0 where
  cond_src_ip cond_dst_ip cond_src_port cond_dst_port cond_protocol : ConditionType
  cond_pps cond_bps cond_threat_score other_condition : ConditionType

pub data Operator : Type 0 where
  op_eq op_neq op_gt op_lt op_gte op_lte op_in op_cidr op_range other_operator : Operator

pub data CondLogic : Type 0 where
  no_logic logic_and logic_or other_logic : CondLogic

pub record Condition : Type 0 where
  pub type : ConditionType
  pub operator : Operator
  pub value : String

pub record Rule : Type 0 where
  pub id : String
  pub name : String
  pub priority : ℤ
  pub enabled : Bool
  pub action : RuleAction
  pub conditions : List Condition
  pub cond_logic : CondLogic
  pub ttl_seconds : ℕ
  pub rule_id : ℕ
  pub reason : String

-- An address that is nil is `none`.
pub record Flow : Type 0 where
  pub src_ip : Option IpAddr
  pub dst_ip : Option IpAddr
  pub src_port : ℕ
  pub dst_port : ℕ
  pub protocol : ℕ
  pub threat_score : ℕ
  pub pps : ℕ
  pub bps : ℕ

-- net.ParseCIDR with Contains, `none` where it does not parse; net.ParseIP with Equal; Sscanf of
-- one number and of a range, on variables that start at zero; the decimal text of a number, and
-- the comparison of texts.
pub record Parsers : Type 0 where
  pub cidr_contains : String → IpAddr → Option Bool
  pub parse_ip : String → Option IpAddr
  pub ip_equal : IpAddr → IpAddr → Bool
  pub scan_uint16 : String → ℕ
  pub scan_range : String → ℕ × ℕ
  pub scan_uint64 : String → ℕ
  pub decimal : ℕ → String
  pub same_text : String → String → Bool
  -- Sprintf of ",%s,".
  pub in_commas : String → String

module _ (P : Parsers) where
  equals : Option IpAddr → IpAddr → Bool
  equals none ip = false
  equals (some parsed) ip = P.ip_equal parsed ip

  -- ParseCIDR's error is no match.
  contained : Option Bool → Bool
  contained none = false
  contained (some b) = b

  match_address : Operator → String → IpAddr → Bool
  match_address op_cidr value ip = contained (P.cidr_contains value ip)
  match_address op_eq value ip = equals (P.parse_ip value) ip
  match_address op_neq value ip = not (equals (P.parse_ip value) ip)
  match_address _ value ip = false

  unfoldable pub match_ip : Condition → Option IpAddr → Bool
  unfolding match_address equals contained
  match_ip c none = false
  match_ip c (some ip) = match_address c.operator c.value ip

  match_port_by : Operator → String → ℕ → Bool
  match_port_by op_eq value port = port == P.scan_uint16 value
  match_port_by op_range value port =
      let (low, high) = P.scan_range value in leb low port && leb port high
  match_port_by op_gt value port = ltb (P.scan_uint16 value) port
  match_port_by op_lt value port = ltb port (P.scan_uint16 value)
  match_port_by _ value port = false

  unfoldable pub match_port : Condition → ℕ → Bool
  unfolding match_port_by
  match_port c port = match_port_by c.operator c.value port

  match_number_by : Operator → ℕ → ℕ → Bool
  match_number_by op_gt threshold n = ltb threshold n
  match_number_by op_lt threshold n = ltb n threshold
  match_number_by op_eq threshold n = n == threshold
  match_number_by op_gte threshold n = leb threshold n
  match_number_by op_lte threshold n = leb n threshold
  match_number_by _ threshold n = false

  unfoldable pub match_uint64 : Condition → ℕ → Bool
  unfolding match_number_by
  match_uint64 c n = match_number_by c.operator (P.scan_uint64 c.value) n

  unfoldable pub contains_str : String → String → Bool
  contains_str haystack needle = not (P.same_text (P.in_commas haystack) needle)

  match_protocol : Operator → String → ℕ → Bool
  match_protocol op_eq value n = P.same_text (P.decimal n) value
  match_protocol op_in value n = contains_str value (P.decimal n)
  match_protocol _ value n = false

  match_by_type : ConditionType → Condition → Flow → Bool
  match_by_type cond_src_ip c f = match_ip c f.src_ip
  match_by_type cond_dst_ip c f = match_ip c f.dst_ip
  match_by_type cond_src_port c f = match_port c f.src_port
  match_by_type cond_dst_port c f = match_port c f.dst_port
  match_by_type cond_protocol c f = match_protocol c.operator c.value f.protocol
  match_by_type cond_pps c f = match_uint64 c f.pps
  match_by_type cond_bps c f = match_uint64 c f.bps
  match_by_type cond_threat_score c f = match_uint64 c f.threat_score
  match_by_type other_condition c f = false

  unfoldable pub match_condition : Condition → Flow → Bool
  unfolding match_by_type match_protocol
  match_condition c f = match_by_type c.type c f

  -- The loop over the conditions, with its early returns.
  unfoldable pub match_all : CondLogic → List Condition → Flow → Bool
  match_all logic_and [] f = true
  match_all _ [] f = false
  match_all logic_and (c ∷ cs) f =
      let rest = match_all logic_and cs f in if match_condition c f then rest else false
  match_all logic_or (c ∷ cs) f =
      let rest = match_all logic_or cs f in if match_condition c f then true else rest
  match_all logic (c ∷ cs) f = match_all logic cs f

  default_logic : CondLogic → CondLogic
  default_logic no_logic = logic_and
  default_logic logic = logic

  unfoldable pub match : Rule → Flow → Bool
  unfolding default_logic
  match r f =
      if not r.enabled || length r.conditions == 0
      then false
      else match_all (default_logic r.cond_logic) r.conditions f

pub data RuleError : Type 0 where
  name_required bad_priority action_required unknown_action no_conditions bad_logic : RuleError

check_logic : CondLogic → Option RuleError
check_logic other_logic = some bad_logic
check_logic _ = none

check_rest : RuleAction → Rule → Option RuleError
check_rest no_action r = some action_required
check_rest other_action r = some unknown_action
check_rest _ r = if length r.conditions == 0 then some no_conditions else check_logic r.cond_logic

pub is_priority : ℤ → Bool
is_priority (pos n) = leb n 10_000
is_priority (negsuc n) = false

unfoldable pub validate_rule : Rule → Option RuleError
unfolding is_priority check_rest check_logic
validate_rule r =
    if string_length r.name == 0
    then some name_required
    else if not (is_priority r.priority)
    then some bad_priority
    else check_rest r.action r
