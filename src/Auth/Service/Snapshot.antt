-- ===== src/Auth/Service/Snapshot.antt =====
-- What a login that succeeds stores of its user.
use text.Mathlib.TextPositions.{eq_refl}
use mathlib.Core.Path.{subst}
use falx_v.Base.{ℕ, ◌≡◌, sym, ap, ◌∙◌, true, List, [], ◌∷◌, some, arith}
use Prim.Native.String.{String}
use falx_v.Auth.Models.{User, AuditEvent}
use falx_v.Base.Dict.{insert}
use falx_v.Auth.Action.{ok, bind-eq-ok, pure, modify, ignore, ◌>>=◌, ◌>>◌}
use falx_v.Auth.Action.Keeps.{
  Keeps, Attains, keeps_rules, bind-Attains-rest, bind-Attains-first, bind-Attains-kept,
}
use falx_v.Auth.Database.{Statement, update_user_row}
use falx_v.Auth.Store.{Store, update_user, run, write_audit_event}
use falx_v.Auth.Host.{Host, Random}
use falx_v.Auth.Tokens.{TokenPair}
use falx_v.Auth.Service.{Service, LoginRequest, on_store, audit, open_session, login, login_event}
use falx_v.Auth.Service.Failures.{Account, login-Account, checked_login}

module _ {D : Type 0} (H : Host D) where
  abbrev Stores : User → Service D → Type 0
  Stores u s = s.store.users u.id ≡ some u

  update_user-Stores :
      (u : User) (now : ℕ) (s : Store D)
      → ((d : D) (xs : List Statement) → (H.exec d xs).1 ≡ true)
      → (update_user H.exec u now s).1.users u.id ≡ some (record u { updated_at = now })
  unfolding update_user run modify ◌>>=◌ insert
  update_user-Stores u now s works =
      ground
        (arith, works s.db (update_user_row (record u { updated_at = now }) ∷ []), eq_refl u.id)

  audit-Stores :
      (u : User) (ev : AuditEvent) (rnd : Random) (now : ℕ) → Keeps (Stores u) (audit H ev rnd now)
  unfolding audit write_audit_event run modify
  audit-Stores u ev rnd now = record { at = λ s h. h }

  -- The row that a login writes, with the time of the login.
  abbrev pub seen_at : (now : ℕ) → User → User
  seen_at now u = record u { last_login = now; updated_at = now }

  written-Attains :
      (u : User) (ev : AuditEvent) (pair : TokenPair) (rnd : Random) (now : ℕ)
      → ((d : D) (xs : List Statement) → (H.exec d xs).1 ≡ true)
      → Attains (Stores (seen_at now u)) (do
        ignore (on_store H (update_user H.exec (record u { last_login = now }) now))
        audit H ev rnd now
        pure pair)
  unfolding ignore on_store
  written-Attains u ev pair rnd now works =
      bind-Attains-first _ _
        (λ s. update_user-Stores (record u { last_login = now }) now s.store works)
        (λ a. search (keeps_rules, audit-Stores) depth 12)

  open_session-Attains :
      (u : User) (ip ua : String) (rnd : Random) (now : ℕ)
      → ((d : D) (xs : List Statement) → (H.exec d xs).1 ≡ true)
      → Attains (Stores (seen_at now u)) (open_session H u ip ua rnd now)
  unfolding open_session
  open_session-Attains u ip ua rnd now works = bind-Attains-rest _ _ (λ a.
      bind-Attains-rest _ _ (λ tokens. bind-Attains-rest _ _ (λ session.
        bind-Attains-rest _ _ (λ pair.
          written-Attains u (login_event H u.id u.username ip ua true "") pair rnd now works))))

  checked_login-Attains :
      (u : User) (req : LoginRequest) (ip ua : String) (rnd : Random) (now : ℕ)
      → ((d : D) (xs : List Statement) → (H.exec d xs).1 ≡ true)
      → Attains (Stores (seen_at now u)) (checked_login H u req ip ua rnd now)
  checked_login-Attains u req ip ua rnd now works = bind-Attains-rest _ _ (λ a.
      bind-Attains-rest _ _ (λ b. bind-Attains-rest _ _ (λ c.
        bind-Attains-kept _ _ (open_session-Attains u ip ua rnd now works)
          (λ pair. search (keeps_rules) depth 12))))

  -- Where the database takes every statement, a login that succeeds leaves of the account what it
  -- found, with the time of the login: the count of failures that it had reset is stored again.
  pub login-stores :
      (req : LoginRequest) (ip ua : String) (rnd : Random) (now : ℕ) (s : Service D) (u : User)
      (result : TokenPair × User)
      → ((d : D) (xs : List Statement) → (H.exec d xs).1 ≡ true)
      → Account req.username u s
      → (login H req ip ua rnd now s).0 ≡ ok result
      → (login H req ip ua rnd now s).1.store.users u.id
        ≡ some (record u { last_login = now; updated_at = now })
  unfolding login
  login-stores req ip ua rnd now s u result works a h =
      let (b, e, rest) = bind-eq-ok _ _ s result h in
      let same_end = login-Account H req ip ua rnd now s u a e in
      subst (λ r. Stores (seen_at now u) r.1) (sym same_end)
        ((checked_login-Attains u req ip ua rnd now works).at _ result
          (sym (ap (λ r. r.0) same_end) ∙ h))
