-- ===== src/Auth/Service/Concurrent/Refused.antt =====
-- How many wrong passwords are tried by logins that run at the same time.
use Prim.Native.String.{String}
use mathlib.Core.Path.{subst}
use falx_v.Base.{
  ℕ, zero, suc, ◌+◌, ◌-◌, ◌≤◌, ◌≡◌, refl, ◌⊎◌, sym, ap, ◌∙◌, true, false, List, [], ◌∷◌, some, All,
  leb, arith, length, Bool-cases, Option-cases, inl, inr,
}
use falx_v.Auth.Models.{User}
use falx_v.Auth.Action.{
  Outcome, Outcome-cases, ok, err, AuthError, invalid_credentials, account_locked, pure, ◌>>=◌,
  bind_ok, bind_err, Action,
}
use falx_v.Auth.Store.{failed, max_failed_attempts}
use falx_v.Auth.Host.{Host}
use falx_v.Auth.Service.{Service, check_login_rate, matches, check_account}
use falx_v.Auth.Service.Failures.{
  Account, Guess, request_of, is_refusal, find_user-Account, check_account-locked,
  check_account-passes, check_password-wrong, check_login_rate-err,
}
use falx_v.Auth.Service.Concurrent.{
  begin_login, finish_login, Flight, System, Event, begins, ends, pick, counted, begun, happens,
  run, HasAtMost, IsWrong,
}

module _ {D : Type 0} (H : Host D) (name : String) where
  record IsOwn (id : String) (x : Flight) : Type 0 where
    own : x.user.id ≡ id
    wrong : matches H x.guess.password x.user.password_hash ≡ false

  record Counted (n f : ℕ) (hash id : String) (u : User) (s : System D) : Type 0 where
    named : s.service.store.by_name name ≡ some id
    stored : s.service.store.users id ≡ some u
    own : u.id ≡ id
    active : u.active ≡ true
    hashed : u.password_hash ≡ hash
    locks : u.locked ≡ leb max_failed_attempts u.failed_attempts
    failures : u.failed_attempts ≡ f + s.refused
    bound : s.refused + length s.flights ≤ max_failed_attempts - f + (n - 1)
    flights : All (IsOwn id) s.flights

  abbrev Begun : User → Outcome User × Service D → Type 0
  Begun u r =
      ((r.0 ≡ ok u) × (u.locked ≡ false)
        ⊎ (e : AuthError) × (r.0 ≡ err e) × (is_refusal {A = User} (err e) ≡ false))
      × Account name u r.1

  rest-Begun :
      (g : Guess) (sv : Service D) (u : User)
      → u.active ≡ true
      → Account name u sv
      → Begun u ((check_account H u g.ip g.ua g.rnd g.now >>= λ b. pure u) sv)
  unfolding pure
  rest-Begun g sv u active a = elim (Bool-cases u.locked) [
    | inl l ↦
        let (e, kept) = check_account-locked H name u g.ip g.ua g.rnd g.now sv active l a in
        subst (Begun u) (sym (bind_err _ _ sv account_locked e))
          (inr (account_locked, refl, refl), kept)
    | inr l ↦
        let passes = check_account-passes H u g.ip g.ua g.rnd g.now sv active l in
        subst (Begun u)
          (sym (bind_ok _ _ sv tt (ap (λ r. r.0) passes) ∙ ap (λ r. pure u r.1) passes))
          (inl (refl, l), a)
  ]

  -- How a login begins, and that it leaves the account.
  begin_login-Account :
      (g : Guess) (sv : Service D) (u : User)
      → u.active ≡ true
      → Account name u sv
      → Begun u (begin_login H (request_of name g) g.ip g.ua g.rnd g.now sv)
  unfolding begin_login check_login_rate
  begin_login-Account g sv u active a =
      let s₁ = (check_login_rate H g.ip g.now sv).1 in
      let a₁ : Account name u s₁ = record { named = a.named; stored = a.stored } in
      let rest : Action (Service D) User =
        check_account H u g.ip g.ua g.rnd g.now >>= λ b. pure u in
      elim (Outcome-cases (check_login_rate H g.ip g.now sv).0) [
        | inr (x, e) ↦ subst (Begun u) (sym (bind_err _ _ sv x e)) (
          inr (
            x,
            refl,
            ap (λ y. is_refusal {A = User} (err y)) (check_login_rate-err H g.ip g.now sv x e),
          ),
          a₁,
        )
        | inl (b, e) ↦
            let found = find_user-Account H name g.ip g.ua g.rnd g.now s₁ u a₁ in
            let to_rest : begin_login H (request_of name g) g.ip g.ua g.rnd g.now sv ≡ rest s₁ =
              bind_ok _ _ sv tt e
              ∙ (bind_ok _ _ s₁ u (ap (λ r. r.0) found) ∙ ap (λ r. rest r.1) found) in
            subst (Begun u) (sym to_rest) (rest-Begun g s₁ u active a₁)
      ]

  finish_login-wrong :
      (v u : User) (g : Guess) (now : ℕ) (sv : Service D)
      → matches H g.password v.password_hash ≡ false
      → sv.store.by_name name ≡ some v.id
      → sv.store.users v.id ≡ some u
      → ((finish_login H v (request_of name g) g.ip g.ua g.rnd now sv).0 ≡ err invalid_credentials)
        × ((finish_login H v (request_of name g) g.ip g.ua g.rnd now sv).1.store.by_name name
            ≡ some v.id)
        × ((finish_login H v (request_of name g) g.ip g.ua g.rnd now sv).1.store.users v.id
            ≡ some (failed u now))
  unfolding finish_login
  finish_login-wrong v u g now sv m named stored =
      let (e, n, st) =
        check_password-wrong H name v u g.password g.ip g.ua g.rnd now sv m named stored in
      subst
        (λ r.
          (r.0 ≡ err invalid_credentials)
          × (r.1.store.by_name name ≡ some v.id)
          × (r.1.store.users v.id ≡ some (failed u now)))
        (sym (bind_err _ _ sv invalid_credentials e)) (refl, n, st)

  pick-All :
      (P : Flight → Type 0) (i : ℕ) (xs : List Flight) (x : Flight) (rest : List Flight)
      → pick i xs ≡ some (x, rest)
      → All P xs
      → P x × All P rest × (length xs ≡ suc (length rest))
  unfolding pick
  pick-All P i [] x rest e a = absurd (ground arith)
  pick-All P zero (y ∷ ys) x rest e (p, ps) =
      let first : y ≡ x = ground arith in
      let others : ys ≡ rest = ground arith in
      (subst P first p, subst (All P) others ps, ap (λ l. suc (length l)) others)
  pick-All P (suc i) (y ∷ ys) x rest e (p, ps) = elim (Option-cases (pick i ys)) [
    | inl n ↦ absurd (ground arith)
    | inr ((z, zs), n) ↦
        let (pz, pzs, len) = pick-All P i ys z zs n ps in
        let at : z ≡ x = ground arith in
        let others : y ∷ zs ≡ rest = ground arith in
        (subst P at pz, subst (All P) others (p, pzs), ap suc len ∙ ap (λ l. suc (length l)) others)
  ]

  begins-Counted :
      (n f : ℕ) (hash id : String) (u : User) (g : Guess) (s : System D)
      → matches H g.password hash ≡ false
      → length (happens H name (begins g) s).flights ≤ n
      → Counted n f hash id u s
      → Counted n f hash id u (happens H name (begins g) s)
  unfolding happens begun counted
  begins-Counted n f hash id u g s w room c =
      let r = begin_login H (request_of name g) g.ip g.ua g.rnd g.now s.service in
      let account : Account name u s.service = record {
        named = c.named ∙ ap some (sym c.own);
        stored = ap (λ k. s.service.store.users k) c.own ∙ c.stored;
      } in
      let (result, kept) = begin_login-Account g s.service u c.active account in
      let named = kept.named ∙ ap some c.own in
      let stored = ap (λ k. r.1.store.users k) (sym c.own) ∙ kept.stored in
      elim result [
        | inl (e, l) ↦
            let room' = subst (λ o. length (begun H name g o r.1 s).flights ≤ n) e room in
            subst (λ o. Counted n f hash id u (begun H name g o r.1 s)) (sym e)
              (record {
                named = named;
                stored = stored;
                own = c.own;
                active = c.active;
                hashed = c.hashed;
                locks = c.locks;
                failures = c.failures;
                bound = ground (arith, room', c.bound, c.failures, c.locks, l);
                flights = (
                  record {
                    own = c.own;
                    wrong = subst (λ h. matches H g.password h ≡ false) (sym c.hashed) w;
                  },
                  c.flights,
                );
              })
        | inr (x, e, no_refusal) ↦
            subst (λ o. Counted n f hash id u (begun H name g o r.1 s)) (sym e)
              (record {
                named = named;
                stored = stored;
                own = c.own;
                active = c.active;
                hashed = c.hashed;
                locks = c.locks;
                failures = ground (arith, no_refusal, c.failures);
                bound = ground (arith, no_refusal, c.bound);
                flights = c.flights;
              })
      ]

  ends-Counted :
      (n f : ℕ) (hash id : String) (u : User) (i now : ℕ) (s : System D)
      → Counted n f hash id u s
      → (v : User) × Counted n f hash id v (happens H name (ends i now) s)
  unfolding happens counted failed
  ends-Counted n f hash id u i now s c = elim (Option-cases (pick i s.flights)) [
    | inl none_there ↦ (u, rw (happens, none_there) c)
    | inr ((x, rest), there) ↦
        let (p, others, len) = pick-All (IsOwn id) i s.flights x rest there c.flights in
        let named = c.named ∙ ap some (sym p.own) in
        let stored = ap (λ k. s.service.store.users k) p.own ∙ c.stored in
        let (e, named', stored') =
          finish_login-wrong x.user u x.guess now s.service p.wrong named stored in
        let r =
          finish_login H x.user (request_of name x.guess) x.guess.ip x.guess.ua x.guess.rnd now
            s.service in
        (
          failed u now,
          rw (happens, there)
              (record {
                named = named' ∙ ap some p.own;
                stored = ap (λ k. r.1.store.users k) (sym p.own) ∙ stored';
                own = c.own;
                active = c.active;
                hashed = c.hashed;
                locks = ground (arith, c.locks);
                failures = ground (arith, c.failures, e);
                bound = ground (arith, c.bound, len, e);
                flights = others;
              }),
        )
  ]

  HasAtMost-here :
      (n : ℕ) (es : List Event) (s : System D) → HasAtMost H name n es s → length s.flights ≤ n
  HasAtMost-here n [] s h = h
  HasAtMost-here n (e ∷ es) s h = h.0

  run-Counted :
      (n f : ℕ) (hash id : String) (u : User) (es : List Event) (s : System D)
      → All (IsWrong H name hash) es
      → HasAtMost H name n es s
      → Counted n f hash id u s
      → (run H name es s).refused ≤ max_failed_attempts - f + (n - 1)
  unfolding run
  run-Counted n f hash id u [] s a h c = ground (arith, c.bound)
  run-Counted n f hash id u (begins g ∷ es) s (w, a) (h, hs) c =
      run-Counted n f hash id u es (happens H name (begins g) s) a hs
        (begins-Counted n f hash id u g s w (HasAtMost-here n es _ hs) c)
  run-Counted n f hash id u (ends i now ∷ es) s (w, a) (h, hs) c =
      let (v, c') = ends-Counted n f hash id u i now s c in
      run-Counted n f hash id v es (happens H name (ends i now) s) a hs c'

  -- Of any logins of an active account, from whatever addresses and interleaved in any way, all with
  -- wrong passwords and at most `n` of them under way at a time, at most as many end in the error of
  -- wrong credentials as are left to five failures, and `n` less one more. The account is taken to be
  -- locked exactly if it has five failures or more.
  pub run-refused-le :
      (n : ℕ) (es : List Event) (sv : Service D) (u : User)
      → Account name u sv
      → u.active ≡ true
      → u.locked ≡ leb max_failed_attempts u.failed_attempts
      → All (IsWrong H name u.password_hash) es
      → HasAtMost H name n es (record { service = sv; flights = []; refused = 0 })
      → (run H name es (record { service = sv; flights = []; refused = 0 })).refused
        ≤ max_failed_attempts - u.failed_attempts + (n - 1)
  run-refused-le n es sv u a active l w h =
      run-Counted n u.failed_attempts u.password_hash u.id u es _ w h (record {
        named = a.named;
        stored = a.stored;
        own = refl;
        active = active;
        hashed = refl;
        locks = l;
        failures = omega arith;
        bound = omega arith;
        flights = tt;
      })
