-- ===== src/Auth/Action/Keeps.antt =====
-- Invariants of methods, with a rule for each way to build a method.
use falx_v.Base.{◌≡◌, Bool, true, false, if◌then◌else◌}
use falx_v.Auth.Action.{
  AuthError, Outcome, ok, err, Action, pure, raise, gets, of, ignore, continue, ◌>>=◌, modify,
  raise_if, bind-eq-ok,
}

-- The method keeps the property, with whatever result.
pub record Keeps {S A : Type 0} (P : S → Type 0) (m : Action S A) : Type 0 where
  pub at : (s : S) → P s → P (m s).1

-- The method has the property whenever it succeeds.
pub record Attains {S A : Type 0} (P : S → Type 0) (m : Action S A) : Type 0 where
  pub at : (s : S) (a : A) → (m s).0 ≡ ok a → P (m s).1

module _ {S A : Type 0} {P : S → Type 0} where
  pub pure-Keeps : (a : A) → Keeps P (pure a)
  unfolding pure
  pure-Keeps a = record { at = λ s h. h }

  pub raise-Keeps : (e : AuthError) → Keeps P (raise {A = A} e)
  unfolding raise
  raise-Keeps e = record { at = λ s h. h }

  pub gets-Keeps : (f : S → A) → Keeps P (gets f)
  unfolding gets
  gets-Keeps f = record { at = λ s h. h }

  pub of-Keeps : (r : Outcome A) → Keeps P (of r)
  unfolding of
  of-Keeps r = record { at = λ s h. h }

  pub ignore-Keeps : (m : Action S A) → Keeps P m → Keeps P (ignore m)
  unfolding ignore
  ignore-Keeps m k = record { at = k.at }

  pub if-Keeps :
      (b : Bool) (m n : Action S A) → Keeps P m → Keeps P n → Keeps P (if b then m else n)
  if-Keeps true m n km kn = km
  if-Keeps false m n km kn = kn

module _ {S A B : Type 0} {P : S → Type 0} where
  continue-Keeps :
      (r : Outcome A) (f : A → Action S B) → ((a : A) → Keeps P (f a)) → Keeps P (continue r f)
  continue-Keeps (ok a) f kf = record { at = (kf a).at }
  continue-Keeps (err e) f kf = record { at = λ s h. h }

  pub bind-Keeps :
      (m : Action S A) (f : A → Action S B)
      → Keeps P m
      → ((a : A) → Keeps P (f a))
      → Keeps P (m >>= f)
  unfolding ◌>>=◌
  bind-Keeps m f km kf = record {
    at = λ s h. let (r, s') = m s in (continue-Keeps r f kf).at s' (km.at s h);
  }

  -- A property that the first method brings about, and what follows keeps.
  pub bind-then :
      (m : Action S A) (f : A → Action S B) (s : S)
      → P (m s).1
      → ((a : A) → Keeps P (f a))
      → P ((m >>= f) s).1
  unfolding ◌>>=◌
  bind-then m f s p kf = let (r, s') = m s in (continue-Keeps r f kf).at s' p

  continue-Attains :
      (r : Outcome A) (f : A → Action S B)
      → ((a : A) → Attains P (f a))
      → (s : S) (b : B) → (continue r f s).0 ≡ ok b
      → P (continue r f s).1
  continue-Attains (ok a) f kf s b h = (kf a).at s b h
  continue-Attains (err e) f kf s b h = cc

  -- The rest brings the property about, or the first method does and the rest keeps it.
  pub bind-Attains-rest :
      (m : Action S A) (f : A → Action S B) → ((a : A) → Attains P (f a)) → Attains P (m >>= f)
  unfolding ◌>>=◌
  bind-Attains-rest m f kf = record {
    at = λ s b h. let (r, s') = m s in continue-Attains r f kf s' b h;
  }

  pub bind-Attains-first :
      (m : Action S A) (f : A → Action S B)
      → ((s : S) → P (m s).1)
      → ((a : A) → Keeps P (f a))
      → Attains P (m >>= f)
  bind-Attains-first m f first kf = record { at = λ s b h. bind-then m f s (first s) kf }

  pub bind-Attains-kept :
      (m : Action S A) (f : A → Action S B)
      → Attains P m
      → ((a : A) → Keeps P (f a))
      → Attains P (m >>= f)
  bind-Attains-kept m f am kf = record {
    at = λ s b h. let (a, e, rest) = bind-eq-ok m f s b h in bind-then m f s (am.at s a e) kf;
  }

module _ {S : Type 0} {P : S → Type 0} where
  pub modify-Keeps : (f : S → S) → ((s : S) → P s → P (f s)) → Keeps P (modify f)
  unfolding modify
  modify-Keeps f k = record { at = k }

  pub raise_if-Keeps : (b : Bool) (e : AuthError) → Keeps P (raise_if b e)
  unfolding raise_if
  raise_if-Keeps true e = record { at = λ s h. h }
  raise_if-Keeps false e = record { at = λ s h. h }

pub ruleset keeps_rules = (
  pure-Keeps, raise-Keeps, gets-Keeps, of-Keeps, ignore-Keeps, if-Keeps, bind-Keeps, raise_if-Keeps,
)
