-- ===== src/Auth/Action.antt =====
-- A method that may fail: what it wrote stays written when it returns an error. The panic at a nil
-- pointer is an error too.
pub mod Keeps
pub mod Gives
use falx_v.Base.{◌≡◌, refl, ◌⊎◌, inl, inr, Bool, true, false, Option, none, some}
use falx_v.Auth.Password.{PasswordError}

pub data AuthError : Type 0 where
  user_not_found user_exists session_not_found session_expired session_revoked : AuthError
  invalid_credentials account_locked session_inactive totp_required : AuthError
  too_many_attempts insufficient_privileges database entropy signing invalid_token : AuthError
  hash_length no_pending_enrollment invalid_totp cannot_lock_self : AuthError
  nil_pointer : AuthError
  weak : PasswordError → AuthError

pub data Outcome (A : Type 0) : Type 0 where
  ok : A → Outcome A
  err : AuthError → Outcome A

abbrev pub Action : Type 0 → Type 0 → Type 0
Action S A = S → Outcome A × S

module _ {S A : Type 0} where
  unfoldable pub pure : A → Action S A
  pure a s = (ok a, s)

  unfoldable pub raise : AuthError → Action S A
  raise e s = (err e, s)

  unfoldable pub gets : (S → A) → Action S A
  gets f s = (ok (f s), s)

  unfoldable pub of : Outcome A → Action S A
  of r s = (r, s)

  -- The error is dropped.
  unfoldable pub ignore : Action S A → Action S (Unit {0})
  ignore m s = (ok tt, (m s).1)

module _ {S A B : Type 0} where
  -- What follows a result.
  abbrev pub continue : Outcome A → (A → Action S B) → Action S B
  continue (ok a) f s = f a s
  continue (err e) f s = (err e, s)

  infixl 5 ◌>>=◌ ◌>>◌
  unfoldable pub ◌>>=◌ : Action S A → (A → Action S B) → Action S B
  ◌>>=◌ m f s = let (r, s') = m s in continue r f s'

  abbrev pub ◌>>◌ : Action S A → Action S B → Action S B
  m >> k = m >>= λ _. k

unfoldable pub modify : {S : Type 0} → (S → S) → Action S (Unit {0})
modify f s = (ok tt, f s)

unfoldable pub raise_if : {S : Type 0} → Bool → AuthError → Action S (Unit {0})
raise_if true e s = (err e, s)
raise_if false e s = (ok tt, s)

pub Outcome-cases :
    {A : Type 0} (r : Outcome A) → ((a : A) × (r ≡ ok a)) ⊎ ((e : AuthError) × (r ≡ err e))
Outcome-cases (ok a) = inl (a, refl)
Outcome-cases (err e) = inr (e, refl)

module _ {S A B : Type 0} where
  continue-eq-ok :
      (r : Outcome A) (f : A → Action S B) (s : S) (b : B)
      → (continue r f s).0 ≡ ok b
      → (a : A) × (r ≡ ok a) × ((f a s).0 ≡ ok b)
  continue-eq-ok (ok a) f s b h = (a, refl, h)
  continue-eq-ok (err e) f s b h = cc

  -- Both parts of a method that succeeded have succeeded.
  pub bind-eq-ok :
      (m : Action S A) (f : A → Action S B) (s : S) (b : B)
      → ((m >>= f) s).0 ≡ ok b
      → (a : A) × ((m s).0 ≡ ok a) × ((f a (m s).1).0 ≡ ok b)
  unfolding ◌>>=◌
  bind-eq-ok m f s b h = let (r, s') = m s in continue-eq-ok r f s' b h

  continue_ok :
      (r : Outcome A) (f : A → Action S B) (s : S) (a : A) → r ≡ ok a → continue r f s ≡ f a s
  continue_ok r f s a e = rw e refl

  -- The rest of a method after a part that has succeeded.
  pub bind_ok :
      (m : Action S A) (f : A → Action S B) (s : S) (a : A)
      → (m s).0 ≡ ok a
      → (m >>= f) s ≡ f a (m s).1
  unfolding ◌>>=◌
  bind_ok m f s a e = continue_ok (m s).0 f (m s).1 a e

  continue_err :
      (r : Outcome A) (f : A → Action S B) (s : S) (e : AuthError)
      → r ≡ err e
      → continue r f s ≡ (err e, s)
  continue_err r f s x e = rw e refl

  -- A part that fails ends the method.
  pub bind_err :
      (m : Action S A) (f : A → Action S B) (s : S) (e : AuthError)
      → (m s).0 ≡ err e
      → (m >>= f) s ≡ (err e, (m s).1)
  unfolding ◌>>=◌
  bind_err m f s x e = continue_err (m s).0 f (m s).1 x e

  continue_cong :
      (r : Outcome A) (f g : A → Action S B) (s : S)
      → ((a : A) (t : S) → f a t ≡ g a t)
      → continue r f s ≡ continue r g s
  continue_cong (ok a) f g s e = e a s
  continue_cong (err x) f g s e = refl

  pub bind_cong :
      (m : Action S A) (f g : A → Action S B) (s : S)
      → ((a : A) (t : S) → f a t ≡ g a t)
      → (m >>= f) s ≡ (m >>= g) s
  unfolding ◌>>=◌
  bind_cong m f g s e = continue_cong (m s).0 f g (m s).1 e

  continue_assoc :
      {C : Type 0} (r : Outcome A) (f : A → Action S B) (g : B → Action S C) (s : S)
      → (let (x, t) = continue r f s in continue x g t) ≡ continue r (λ a. f a >>= g) s
  unfolding ◌>>=◌
  continue_assoc (ok a) f g s = refl
  continue_assoc (err x) f g s = refl

  pub bind_assoc :
      {C : Type 0} (m : Action S A) (f : A → Action S B) (g : B → Action S C) (s : S)
      → ((m >>= f) >>= g) s ≡ (m >>= λ a. f a >>= g) s
  unfolding ◌>>=◌
  bind_assoc m f g s = continue_assoc (m s).0 f g (m s).1
