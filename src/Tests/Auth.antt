-- ===== src/Tests/Auth.antt =====
-- A service with one user and one session, and the calls of its methods.
use Prim.Native.String.{◌++◌ as append_text}
use falx_v.Base.{
  ℕ, ◌+◌, ◌≤◌, ◌≡◌, refl, true, false, List, [], ◌∷◌, ◌++◌, none, some, drop, if◌then◌else◌, arith,
  ◌-◌, ◌*◌,
}
use falx_v.Auth.Action.{◌>>=◌, raise_if, pure, of, ignore, modify}
use falx_v.Auth.Models.{
  contains, role_permissions, code_of, requires_2fa, admin, analyst, level, has_permission,
  ip_block_temp, User, Session, TokenClaims, scope_session,
}
use falx_v.Auth.Models.Privileges.{has_permission-level}
use falx_v.Auth.Password.{
  Password, judged, classes, classify, is_hashable, validate_password_strength,
}
use falx_v.Auth.Totp.{
  Codec, equal, verify_totp_code, first_match, code_for, padded, big_endian_bytes, byte_at, hotp,
  marked, offset_of, use_counter,
}
use falx_v.Base.Dict.{same, empty, insert, adjust}
use falx_v.Auth.Action.{ok, err, session_revoked}
use falx_v.Auth.Store.{
  get_user_by_id, update_password_hash, run, change_user, revoke, revoke_all_user_sessions,
  write_audit_event, reset_failed_login, create_session, update_user, record_failed_login, failed,
  max_failed_attempts, get_user_by_username,
}
use falx_v.Auth.Host.{Host, Random}
use falx_v.Auth.Tokens.{
  hash_password, verify_access_token, generate_access_token, generate_refresh_token, tfa_ok,
  scope_for, TokenPair, claims_of,
}
use falx_v.Auth.Service.{
  on_store, audit, check_login_rate, attempted, evicted, find_user, check_account, check_password,
  check_totp, verify_totp, open_session, limited_host, Service, LoginRequest, login,
  validate_request, login_rate_limit, matches,
}
use falx_v.Auth.Service.Methods.{logout, change_password, require_strong}
use falx_v.Auth.Service.Ended.{
  Call, call_validate, performs, logout-validate_request, change_password-validate_request,
}
use falx_v.Auth.Service.Granted.{login-eq-ok, fits, IsSignedFor}
use falx_v.Auth.Service.Failures.{Guess}
use falx_v.Auth.Service.Concurrent.Refused.{run-refused-le}
use falx_v.Auth.Service.Concurrent.{
  Event, begins, ends, pick, happens, begun, counted, begin_login, finish_login, run as run_events,
}
use falx_v.Auth.Service.Snapshot.{login-stores}
use falx_v.Base.Time.{second, unix}
use falx_v.Tests.Data.{at_second}
use falx_v.Auth.Service.Rate.{passed, passed-first}

-- The secrets "ALPHA" and "BETA" decode, and a code is the counter.
abbrev pub codec : Codec
codec = record {
  decode_secret =
      λ s. if same s "ALPHA" then some (1 ∷ []) else if same s "BETA" then some (2 ∷ []) else none;
  hmac_sha1 =
      λ key m. drop 4 m ++ (0 ∷ 0 ∷ 0 ∷ 0 ∷ 0 ∷ 0 ∷ 0 ∷ 0 ∷ 0 ∷ 0 ∷ 0 ∷ 0 ∷ 0 ∷ 0 ∷ 0 ∷ 0 ∷ []);
}

-- "Correct-Horse7" and "Wrong-Horse99".
abbrev pub right_bytes : List ℕ
right_bytes = 67 ∷ 111 ∷ 114 ∷ 114 ∷ 101 ∷ 99 ∷ 116 ∷ 45 ∷ 72 ∷ 111 ∷ 114 ∷ 115 ∷ 101 ∷ 55 ∷ []

abbrev pub wrong_bytes : List ℕ
wrong_bytes = 87 ∷ 114 ∷ 111 ∷ 110 ∷ 103 ∷ 45 ∷ 72 ∷ 111 ∷ 114 ∷ 115 ∷ 101 ∷ 57 ∷ 57 ∷ []

abbrev pub password_of : List ℕ → Password
password_of bytes = record { bytes = bytes; runes = bytes }

abbrev pub alice : User
alice = record {
  id = "u1";
  username = "alice";
  email = "alice@falx.local";
  password_hash = "hash";
  role = analyst;
  active = true;
  locked = false;
  failed_attempts = 3;
  last_login = 0;
  created_at = 0;
  updated_at = 0;
  created_by = "system";
  totp_secret = "ALPHA";
  totp_enabled = true;
  display_name = "Alice";
}

abbrev alices : Session
alices = record {
  id = "s1";
  user_id = "u1";
  refresh_token = "hash";
  user_agent = "";
  ip_address = "";
  created_at = 0;
  last_activity_at = at_second 0;
  expires_at = at_second 9_000;
  revoked = false;
}

-- Every token is one of the session "s1"; the database counts its transactions.
abbrev pub host_of_tests : Host ℕ
host_of_tests = record {
  exec = λ d xs. (d + 1, true);
  codec = codec;
  verify_password = λ p h. some (equal p.bytes right_bytes);
  argon2id = λ p salt. append_text "argon2id:" salt;
  sign = λ claims. some claims.session_id;
  parse = λ t now. some (claims_of alice "s1" true scope_session now);
  host_of = λ a. a;
}

abbrev pub service : Service ℕ
service = record {
  store = record {
    db = 0;
    users = insert "u1" alice empty;
    by_name = insert "alice" "u1" empty;
    by_email = insert "alice@falx.local" "u1" empty;
    sessions = insert "s1" alices empty;
    inactivity_timeout = 600 * second;
  };
  login_rl = empty;
  pending_totp = empty;
  totp_cache = λ s c. none;
}

abbrev pub drawn : Random
drawn = record {
  id = "s2";
  audit_id = "a1";
  salt = some "salt";
  refresh = some (password_of right_bytes);
}

has_permission-level_example : has_permission admin ip_block_temp ≡ true
unfolding has_permission level contains role_permissions code_of
has_permission-level_example = has_permission-level admin analyst ip_block_temp (omega arith) refl

abbrev strong : Password
strong = password_of right_bytes

strong_ok : validate_password_strength strong ≡ none
unfolding validate_password_strength judged classes classify
strong_ok = refl

-- Twelve attempts in a minute.
abbrev attempts : List ℕ
attempts =
    at_second 1
    ∷ at_second 2
    ∷ at_second 3
    ∷ at_second 4
    ∷ at_second 5
    ∷ at_second 6
    ∷ at_second 7
    ∷ at_second 8
    ∷ at_second 9
    ∷ at_second 10
    ∷ at_second 60
    ∷ []

passed-first_example :
    passed host_of_tests "10.0.0.9" (at_second 0 ∷ attempts) service ≤ login_rate_limit
passed-first_example =
    passed-first host_of_tests "10.0.0.9" (at_second 0) attempts service refl (ground arith)

abbrev token_claims : TokenClaims
token_claims = claims_of alice "s1" true scope_session (at_second 30)

abbrev between : List (Call × Random × ℕ)
between = (call_validate "s1", drawn, at_second 20) ∷ []

logout-validate_request_example :
    (validate_request host_of_tests "s1" (at_second 30) (
      performs host_of_tests between
        (logout host_of_tests "s1" "u1" "10.0.0.9" drawn (at_second 10) service).1)).0
    ≡ err session_revoked
unfolding insert verify_access_token claims_of
logout-validate_request_example =
    logout-validate_request host_of_tests "s1" token_claims alices "u1" "10.0.0.9" drawn
      (at_second 10) between (at_second 30) service refl (refl, tt) refl

abbrev new_bytes : List ℕ
new_bytes = 81 ∷ wrong_bytes

abbrev changed : Service ℕ
changed =
    (change_password host_of_tests "u1" (password_of right_bytes) (password_of new_bytes) "10.0.0.9"
      drawn (at_second 10) service).1

change_password-validate_request_example :
    (validate_request host_of_tests "s1" (at_second 30) (performs host_of_tests between changed)).0
    ≡ err session_revoked
unfolding insert verify_access_token claims_of change_password ◌>>=◌ on_store get_user_by_id
    raise_if matches equal require_strong validate_password_strength judged classes classify pure of
    hash_password is_hashable update_password_hash run ignore modify adjust audit change_user revoke
    revoke_all_user_sessions write_audit_event
change_password-validate_request_example =
    change_password-validate_request host_of_tests "s1" token_claims
      (record alices { revoked = true }) "u1" (password_of right_bytes) (password_of new_bytes)
      "10.0.0.9" drawn (at_second 10) between (at_second 30) service refl refl refl (refl, tt) refl

-- The code of the counter 56666667.
abbrev request : List ℕ → LoginRequest
request bytes = record {
  username = "alice";
  password = password_of bytes;
  totp_code = 54 ∷ 54 ∷ 54 ∷ 54 ∷ 54 ∷ 55 ∷ [];
}

abbrev logged_in : TokenPair × User
logged_in = (
  record {
    access_token = "s2";
    refresh_token = some (password_of right_bytes);
    expires_at = at_second 910;
  },
  record alice { last_login = at_second 10 },
)

login_ok :
    (login host_of_tests (request right_bytes) "10.0.0.9" "" drawn (at_second 10) service).0
    ≡ ok logged_in
unfolding login insert ◌>>=◌ check_login_rate attempted evicted find_user get_user_by_username pure
    check_account check_password matches equal check_totp verify_totp verify_totp_code first_match
    code_for padded ignore modify of raise_if adjust requires_2fa role_permissions is_hashable audit
    claims_of generate_access_token generate_refresh_token hash_password limited_host on_store
    open_session scope_for tfa_ok change_user create_session reset_failed_login run update_user
    write_audit_event big_endian_bytes byte_at hotp marked offset_of use_counter unix
login_ok = refl

login-eq-ok_example :
    (u : User) × ((get_user_by_username "alice" service.store).0 ≡ ok u)
    × (u.active ≡ true)
    × (u.locked ≡ false)
    × (matches host_of_tests (password_of right_bytes) u.password_hash ≡ true)
    × (u.totp_enabled ≡ true
        → fits host_of_tests u (request right_bytes).totp_code (at_second 10) service ≡ true)
    × IsSignedFor host_of_tests u "s2" (at_second 10) logged_in.0
login-eq-ok_example =
    login-eq-ok host_of_tests (request right_bytes) "10.0.0.9" "" drawn (at_second 10) service
      logged_in.0 logged_in.1 login_ok

login-stores_example :
    (login host_of_tests
        (request right_bytes)
        "10.0.0.9"
        ""
        drawn
        (at_second 10)
        service).1.store.users
      "u1"
    ≡ some (record alice { last_login = at_second 10; updated_at = at_second 10 })
unfolding insert
login-stores_example =
    login-stores host_of_tests (request right_bytes) "10.0.0.9" "" drawn (at_second 10) service
      alice logged_in (λ d xs. refl) (record { named = refl; stored = refl }) login_ok

abbrev guess : ℕ → Guess
guess t = record {
  password = password_of wrong_bytes;
  totp_code = [];
  ip = "10.0.0.9";
  ua = "";
  rnd = drawn;
  now = at_second t;
}

-- Two logins at a time: both are refused for the password, which makes five failures.
abbrev guesses : List Event
guesses = begins (guess 1) ∷ begins (guess 2) ∷ ends 0 (at_second 3) ∷ ends 0 (at_second 4) ∷ []

run-refused-le_example :
    (run_events host_of_tests "alice" guesses
      (record { service = service; flights = []; refused = 0 })).refused
    ≤ max_failed_attempts - alice.failed_attempts + (2 - 1)
unfolding insert matches equal happens begun counted pick begin_login finish_login check_login_rate
    attempted evicted limited_host find_user get_user_by_username on_store check_account pure ◌>>=◌
    raise_if of ignore modify adjust check_password audit write_audit_event run change_user
    record_failed_login failed
run-refused-le_example =
    run-refused-le host_of_tests "alice" 2 guesses service alice
      (record { named = refl; stored = refl }) refl refl (refl, (refl, (tt, (tt, tt))))
      (omega arith, (omega arith, (omega arith, (omega arith, omega arith))))
