-- ===== src/Auth/Models.antt =====
-- Roles, permissions, users and sessions, control-plane/pkg/auth/models.go. Role, Permission and
-- Scope are the constants of the source; Role and Scope have one constructor for every other text.
-- Left out are the fields that nothing here reads: the avatar, and the metadata of an audit event.
pub mod Privileges
use Prim.Native.String.{String}
use falx_v.Base.{ℕ, ◌+◌, ◌-◌, Bool, true, false, List, [], ◌∷◌, ltb, ◌==◌, if◌then◌else◌}

pub data Role : Type 0 where
  super_admin admin senior_analyst analyst viewer : Role
  other_role : String → Role

unfoldable pub level : Role → ℕ
level super_admin = 5
level admin = 4
level senior_analyst = 3
level analyst = 2
level viewer = 1
level (other_role _) = 0

unfoldable pub requires_2fa : Role → Bool
requires_2fa super_admin = true
requires_2fa admin = true
requires_2fa senior_analyst = false
requires_2fa analyst = false
requires_2fa viewer = false
requires_2fa (other_role _) = false

pub data Permission : Type 0 where
  user_create user_read user_update user_delete user_list role_assign : Permission
  ip_block ip_unblock ip_block_temp : Permission
  policy_create policy_update policy_delete policy_read : Permission
  honeypot_manage honeypot_view failsafe_control failsafe_view : Permission
  dashboard_view telemetry_read audit_read alert_read alert_acknowledge : Permission
  system_config system_health system_restart metrics_read : Permission

-- A number for each permission, by which two of them are compared.
unfoldable pub code_of : Permission → ℕ
code_of user_create = 0
code_of user_read = 1
code_of user_update = 2
code_of user_delete = 3
code_of user_list = 4
code_of role_assign = 5
code_of ip_block = 6
code_of ip_unblock = 7
code_of ip_block_temp = 8
code_of policy_create = 9
code_of policy_update = 10
code_of policy_delete = 11
code_of policy_read = 12
code_of honeypot_manage = 13
code_of honeypot_view = 14
code_of failsafe_control = 15
code_of failsafe_view = 16
code_of dashboard_view = 17
code_of telemetry_read = 18
code_of audit_read = 19
code_of alert_read = 20
code_of alert_acknowledge = 21
code_of system_config = 22
code_of system_health = 23
code_of system_restart = 24
code_of metrics_read = 25

unfoldable pub role_permissions : Role → List Permission
role_permissions super_admin =
    user_create ∷ user_read ∷ user_update ∷ user_delete ∷ user_list ∷ role_assign ∷ ip_block
    ∷ ip_unblock ∷ ip_block_temp ∷ policy_create ∷ policy_update ∷ policy_delete ∷ policy_read
    ∷ honeypot_manage ∷ honeypot_view ∷ failsafe_control ∷ failsafe_view ∷ dashboard_view
    ∷ telemetry_read ∷ audit_read ∷ alert_read ∷ alert_acknowledge ∷ system_config ∷ system_health
    ∷ system_restart ∷ metrics_read ∷ []
role_permissions admin =
    user_create ∷ user_read ∷ user_update ∷ user_list ∷ role_assign ∷ ip_block ∷ ip_unblock
    ∷ ip_block_temp ∷ policy_create ∷ policy_update ∷ policy_delete ∷ policy_read ∷ honeypot_manage
    ∷ honeypot_view ∷ failsafe_control ∷ failsafe_view ∷ dashboard_view ∷ telemetry_read
    ∷ audit_read ∷ alert_read ∷ alert_acknowledge ∷ system_config ∷ system_health ∷ metrics_read
    ∷ []
role_permissions senior_analyst =
    ip_block ∷ ip_unblock ∷ ip_block_temp ∷ policy_create ∷ policy_update ∷ policy_read
    ∷ honeypot_view ∷ failsafe_control ∷ failsafe_view ∷ dashboard_view ∷ telemetry_read
    ∷ alert_read ∷ alert_acknowledge ∷ system_health ∷ metrics_read ∷ audit_read ∷ []
role_permissions analyst =
    ip_block_temp ∷ policy_read ∷ honeypot_view ∷ failsafe_view ∷ dashboard_view ∷ telemetry_read
    ∷ alert_read ∷ alert_acknowledge ∷ system_health ∷ []
role_permissions viewer =
    dashboard_view ∷ telemetry_read ∷ alert_read ∷ system_health ∷ policy_read ∷ []
role_permissions (other_role _) = []

unfoldable pub contains : List Permission → Permission → Bool
contains [] p = false
contains (perm ∷ perms) p =
    let rest = contains perms p in if code_of perm == code_of p then true else rest

pub record User : Type 0 where
  pub id : String
  pub username : String
  pub email : String
  pub password_hash : String
  pub role : Role
  pub active : Bool
  pub locked : Bool
  pub failed_attempts : ℕ
  pub last_login : ℕ
  pub created_at : ℕ
  pub updated_at : ℕ
  pub created_by : String
  pub totp_secret : String
  pub totp_enabled : Bool
  pub display_name : String

unfoldable pub has_permission : Role → Permission → Bool
has_permission role p = contains (role_permissions role) p

unfoldable pub can_manage_role : User → Role → Bool
can_manage_role u target = ltb (level target) (level u.role)

pub record Session : Type 0 where
  pub id : String
  pub user_id : String
  pub refresh_token : String
  pub user_agent : String
  pub ip_address : String
  pub created_at : ℕ
  pub last_activity_at : ℕ
  pub expires_at : ℕ
  pub revoked : Bool

unfoldable pub is_expired : Session → ℕ → Bool
is_expired s now = ltb s.expires_at now

unfoldable pub is_inactive : Session → ℕ → ℕ → Bool
is_inactive s timeout now = ltb timeout (now - s.last_activity_at)

pub data Scope : Type 0 where
  scope_pre_auth scope_session : Scope
  other_scope : String → Scope

pub record TokenClaims : Type 0 where
  pub user_id : String
  pub username : String
  pub role : Role
  pub session_id : String
  pub issued_at : ℕ
  pub expires_at : ℕ
  pub token_type : String
  pub tfa_verified : Bool
  pub scope : Scope
  pub permissions : List Permission

pub record AuditEvent : Type 0 where
  pub user_id : String
  pub username : String
  pub action : String
  pub resource : String
  pub ip_address : String
  pub user_agent : String
  pub success : Bool
  pub fail_reason : String
