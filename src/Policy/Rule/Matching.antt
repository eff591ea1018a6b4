-- ===== src/Policy/Rule/Matching.antt =====
-- When a rule matches.
use Prim.Native.String.{String, len as string_length}
use falx_v.Base.{
  List-cases, none, ℕ, ◌≡◌, ◌≢◌, refl, ◌⊎◌, ◌↔◌, true, false, List, [], ◌∷◌, All, inl, inr, arith,
}
use falx_v.Policy.Rule.{
  validate_rule, check_rest, check_logic, is_priority, no_action, other_action, Condition, Rule,
  Flow, Parsers, CondLogic, no_logic, logic_and, logic_or, other_logic, cond_protocol, op_in,
  contains_str, match_condition, match_all, match, default_logic,
}

-- Some element has the property.
abbrev pub Some : {A : Type 0} → (A → Type 0) → List A → Type 0
Some P [] = ⊥
Some P (x ∷ xs) = P x ⊎ Some P xs

module _ (P : Parsers) where
  -- What the conditions ask of a flow, by the logic of the rule.
  abbrev pub Holds : CondLogic → List Condition → Flow → Type 0
  Holds no_logic cs f = All (λ c. match_condition P c f ≡ true) cs
  Holds logic_and cs f = All (λ c. match_condition P c f ≡ true) cs
  Holds logic_or cs f = Some (λ c. match_condition P c f ≡ true) cs
  Holds other_logic cs f = ⊥

  match_all-and :
      (cs : List Condition) (f : Flow)
      → (match_all P logic_and cs f ≡ true) ↔ All (λ c. match_condition P c f ≡ true) cs
  unfolding match_all
  match_all-and [] f = (λ h. _, λ h. refl)
  match_all-and (c ∷ cs) f = let ih = match_all-and cs f in ground arith

  match_all-or :
      (cs : List Condition) (f : Flow)
      → (match_all P logic_or cs f ≡ true) ↔ Some (λ c. match_condition P c f ≡ true) cs
  unfolding match_all
  match_all-or [] f = (λ h. absurd (ground arith), λ h. absurd h)
  match_all-or (c ∷ cs) f = let ih = match_all-or cs f in ground arith

  match_all-other : (cs : List Condition) (f : Flow) → match_all P other_logic cs f ≡ false
  unfolding match_all
  match_all-other [] f = refl
  match_all-other (c ∷ cs) f = match_all-other cs f

  match_all_iff :
      (l : CondLogic) (cs : List Condition) (f : Flow)
      → (match_all P (default_logic P l) cs f ≡ true) ↔ Holds l cs f
  unfolding default_logic
  match_all_iff no_logic cs f = match_all-and cs f
  match_all_iff logic_and cs f = match_all-and cs f
  match_all_iff logic_or cs f = match_all-or cs f
  match_all_iff other_logic cs f = let never = match_all-other cs f in ground arith

  -- A rule matches a flow exactly when it is enabled, has a condition, and its conditions hold of
  -- the flow: all of them if its logic is AND or is not given, one of them if it is OR, and never
  -- with any other logic.
  pub match_iff :
      (r : Rule) (f : Flow)
      → (match P r f ≡ true)
        ↔ (r.enabled ≡ true) × (r.conditions ≢ []) × Holds r.cond_logic r.conditions f
  unfolding match
  match_iff r f =
      let holds = match_all_iff r.cond_logic r.conditions f in
      elim (List-cases r.conditions) [ inl e ↦ ground arith | inr (c, cs, e) ↦ ground arith ]

  -- A condition that asks whether the protocol is in a list matches every flow, whatever the list
  -- says, since no text that begins with a comma is the decimal text of a number.
  protocol_in-matches :
      (value : String) (f : Flow)
      → ((haystack : String) (n : ℕ) → P.same_text (P.in_commas haystack) (P.decimal n) ≡ false)
      → match_condition P (record { type = cond_protocol; operator = op_in; value = value }) f
        ≡ true
  unfolding match_condition contains_str
  protocol_in-matches value f commas = rw (commas value f.protocol) refl

-- A rule passes the validation exactly when it has a name, a priority from 0 to 10000, one of the
-- five actions, at least one condition, and a logic that is AND, OR or not given.
pub validate_rule_iff :
    (r : Rule)
    → (validate_rule r ≡ none)
      ↔ (string_length r.name ≢ 0)
        × (is_priority r.priority ≡ true)
        × (r.action ≢ no_action)
        × (r.action ≢ other_action)
        × (r.conditions ≢ [])
        × (r.cond_logic ≢ other_logic)
unfolding validate_rule check_rest check_logic
validate_rule_iff r = elim (List-cases r.conditions) [
  | inl e ↦ ground arith
  | inr (c, cs, e) ↦ ground arith
]
