-- ===== src/Auth/Bootstrap.antt =====
-- How the store of control-plane/pkg/auth/store.go is filled: from the table of users, with the first
-- administrator, and in the development mode.
use Prim.Native.String.{String}
use mathlib.Core.Option
use falx_v.Base.{ℕ, true, false, List, [], ◌∷◌, Option, none, some}
use falx_v.Auth.Models.{super_admin, User}
use falx_v.Base.Dict.{insert}
use falx_v.Auth.Action.{Action, ◌>>◌, modify}
use falx_v.Auth.Database.{Exec, unlock_all, pin_admin}
use falx_v.Auth.Store.{Store, run, create_user, change_user}

abbrev pub dev_totp_secret : String
dev_totp_secret = "KVKVEU2HKVKTEMKS"

-- The user "admin", before the store sets its id and its times.
unfoldable pub default_admin : (hash : String) → User
default_admin hash = record {
  id = "";
  username = "admin";
  email = "admin@falx.local";
  password_hash = hash;
  role = super_admin;
  active = true;
  locked = false;
  failed_attempts = 0;
  last_login = 0;
  created_at = 0;
  updated_at = 0;
  created_by = "system";
  totp_secret = "";
  totp_enabled = false;
  display_name = "System Administrator";
}

unfoldable pub unlocked : User → (now : ℕ) → User
unlocked u now = record u { locked = false; failed_attempts = 0; updated_at = now }

module _ {D : Type 0} where
  -- The rows of the table of users.
  unfoldable pub load_cache : List User → Store D → Store D
  load_cache [] s = s
  load_cache (u ∷ rows) s = load_cache rows (record s {
    users = insert u.id u s.users;
    by_name = insert u.username u.id s.by_name;
    by_email = insert u.email u.id s.by_email;
  })

module _ {D : Type 0} (exec : Exec D) where
  unfoldable pub dev_mode_bootstrap : (now : ℕ) → Action (Store D) (Unit {0})
  dev_mode_bootstrap now = do
    run exec (unlock_all now ∷ [])
    run exec (pin_admin dev_totp_secret now ∷ [])
    modify (λ s. record s { users = λ k. Option.map (λ u. unlocked u now) (s.users k) })
    modify (λ s. elim (s.by_name "admin") [
      | none ↦ s
      | some id ↦
          change_user id (λ u. record u { totp_secret = dev_totp_secret; totp_enabled = true }) s
    ])

  -- The first administrator, unless there is one or the hash failed.
  unfoldable pub ensure_default_admin :
      (hash : Option String) → (id : String) → (now : ℕ) → Store D → Store D
  ensure_default_admin hash id now s = elim (s.by_name "admin") [
    | some known ↦ s
    | none ↦ elim hash [ none ↦ s | some h ↦ (create_user exec (default_admin h) id now s).1 ]
  ]
