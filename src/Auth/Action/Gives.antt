-- ===== src/Auth/Action/Gives.antt =====
-- What a method's result is, whenever the method succeeds.
use mathlib.Core.Path.{subst}
use falx_v.Base.{◌≡◌, refl, ap}
use falx_v.Auth.Action.{Action, Outcome, ok, err, pure, of, continue, ◌>>=◌}

pub record Gives {S A : Type 0} (Q : A → Type 0) (m : Action S A) : Type 0 where
  pub at : (s : S) (a : A) → (m s).0 ≡ ok a → Q a

-- The value of a result, or another.
value : {A : Type 0} → A → Outcome A → A
value a (ok b) = b
value a (err e) = a

ok-Gives : {A : Type 0} (Q : A → Type 0) (a b : A) → Q a → ok a ≡ ok b → Q b
unfolding value
ok-Gives Q a b q e = subst Q (ap (value a) e) q

module _ {S A : Type 0} {Q : A → Type 0} where
  pub pure-Gives : (a : A) → Q a → Gives {S = S} Q (pure a)
  unfolding pure
  pure-Gives a q = record { at = λ s b e. ok-Gives Q a b q e }

  pub of-Gives : (r : Outcome A) → ((a : A) → r ≡ ok a → Q a) → Gives {S = S} Q (of r)
  unfolding of
  of-Gives r q = record { at = λ s b e. q b e }

module _ {S A B : Type 0} {Q : B → Type 0} where
  continue-Gives :
      (r : Outcome A) (f : A → Action S B)
      → ((a : A) → r ≡ ok a → Gives Q (f a))
      → (s : S) (b : B) → (continue r f s).0 ≡ ok b
      → Q b
  continue-Gives (ok a) f g s b e = (g a refl).at s b e
  continue-Gives (err x) f g s b e = cc

module _ {S A B : Type 0} {R : A → Type 0} {Q : B → Type 0} where
  pub bind-Gives :
      (m : Action S A) (f : A → Action S B)
      → Gives R m
      → ((a : A) → R a → Gives Q (f a))
      → Gives Q (m >>= f)
  unfolding ◌>>=◌
  bind-Gives m f k g = record {
    at = λ s b e. continue-Gives (m s).0 f (λ a h. g a (k.at s a h)) (m s).1 b e;
  }

module _ {S A B : Type 0} {Q : B → Type 0} where
  -- The result of the first method does not matter.
  pub after-Gives :
      (m : Action S A) (f : A → Action S B) → ((a : A) → Gives Q (f a)) → Gives Q (m >>= f)
  after-Gives m f g = bind-Gives {R = λ a. Unit {0}} m f (record { at = λ s a h. tt }) (λ a u. g a)
