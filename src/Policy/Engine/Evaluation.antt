-- ===== src/Policy/Engine/Evaluation.antt =====
-- Which rule Evaluate returns.
use falx_v.Base.{
  ◌≡◌, refl, inl, inr, true, false, List, [], ◌∷◌, ◌++◌, none, some, All, Bool-cases, arith,
}
use falx_v.Policy.Rule.{Rule, Flow, Parsers, match}
use falx_v.Policy.Engine.{PolicyEngine, first_match, evaluate}

module _ (P : Parsers) where
  first_match-some :
      (rs : List Rule) (f : Flow) (r : Rule)
      → first_match P rs f ≡ some r
      → (before after : List Rule) × (rs ≡ before ++ r ∷ after)
        × All (λ q. match P q f ≡ false) before
        × (match P r f ≡ true)
  unfolding first_match
  first_match-some [] f r h = absurd (ground arith)
  first_match-some (q ∷ qs) f r h = elim (Bool-cases (match P q f)) [
    | inl e ↦ let same : q ≡ r = ground arith in ([], qs, rw same refl, _, rw (← same) e)
    | inr e ↦
        let (before, after, split, none_match, m) = first_match-some qs f r (ground arith) in
        (q ∷ before, after, rw split refl, (e, none_match), m)
  ]

  first_match-none :
      (rs : List Rule) (f : Flow) → first_match P rs f ≡ none → All (λ q. match P q f ≡ false) rs
  unfolding first_match
  first_match-none [] f h = _
  first_match-none (q ∷ qs) f h = elim (Bool-cases (match P q f)) [
    | inl e ↦ absurd (ground arith)
    | inr e ↦ (e, first_match-none qs f (ground arith))
  ]

  module _ {W : Type 0} where
    -- The rule that Evaluate returns matches the flow, and no rule in front of it in the order of
    -- the rules does.
    pub evaluate-some :
        (e : PolicyEngine W) (f : Flow) (r : Rule)
        → (evaluate P e f).1 ≡ some r
        → (before after : List Rule) × (e.rules ≡ before ++ r ∷ after)
          × All (λ q. match P q f ≡ false) before
          × (match P r f ≡ true)
    unfolding evaluate
    evaluate-some e f r h = first_match-some e.rules f r h

    -- Where Evaluate returns no rule, none of the rules matches the flow.
    pub evaluate-none :
        (e : PolicyEngine W) (f : Flow)
        → (evaluate P e f).1 ≡ none
        → All (λ q. match P q f ≡ false) e.rules
    unfolding evaluate
    evaluate-none e f h = first_match-none e.rules f h
