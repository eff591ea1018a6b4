-- ===== src/Auth/Database.antt =====
-- The transactions of the store's database, control-plane/pkg/auth/store.go: a list of statements,
-- which succeeds whole or changes nothing.
use Prim.Native.String.{String}
use falx_v.Base.{ℕ, Bool, List}
use falx_v.Auth.Models.{User, Session, AuditEvent}

-- The statements of the source, one constructor for each text.
pub data Statement : Type 0 where
  insert_user : User → Statement
  update_user_row : User → Statement
  set_totp : (id secret : String) → (enabled : Bool) → (now : ℕ) → Statement
  delete_backup_codes : (user_id : String) → Statement
  insert_backup_code : (id user_id hash : String) → Statement
  set_password : (hash : String) → (now : ℕ) → (id : String) → Statement
  insert_session : Session → Statement
  set_activity : (now : ℕ) → (id : String) → Statement
  set_revoked : (id : String) → Statement
  set_all_revoked : (user_id : String) → Statement
  insert_audit : AuditEvent → (id : String) → (now : ℕ) → Statement
  unlock_all : (now : ℕ) → Statement
  pin_admin : (secret : String) → (now : ℕ) → Statement
  set_failures : (attempts : ℕ) → (locked : Bool) → (now : ℕ) → (id : String) → Statement
  clear_failures : (now : ℕ) → (id : String) → Statement

-- The database, and whether the transaction succeeded.
abbrev pub Exec : Type 0 → Type 0
Exec D = D → List Statement → D × Bool
