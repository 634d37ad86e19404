-- ===== src/Sessions.antt =====
-- Login sessions and their refresh tokens: db/sqlc/session_tx.go.
pub mod Hashes
pub mod Kept
pub mod Login
pub mod Rotation
pub mod Reuse
pub mod Spent
pub mod Revocation
pub mod Everywhere
pub mod Lifetime
pub mod Rules
pub mod Table
pub mod Validity
use monierave.Base.{
  ℕ, bytes_equal, String, List, [], ◌∷◌, ◌++◌, Bool, true, false, ◌&&◌, ◌||◌, ◌==◌, not, ltb,
  Option, none, some, str_eq, length, if◌then◌else◌,
}
use monierave.Models.{
  Uuid, Session, User, AuditLog, text, Error, no_rows, session_expired, session_revoked,
  session_mismatch, device_mismatch, refresh_token_reuse,
}
use monierave.Store.{
  Tx, Result, ok, err, pure, raise, query, ◌>>=◌, ◌>>◌, fail_if, exec_tx, row_or_none,
}
use monierave.Queries.Ledger.{is_some}
use monierave.Queries.Records.{AuditLogParams, create_audit_log, get_user}
use monierave.Queries.Sessions.{
  CreateSessionParams, create_session, get_session, get_session_for_update, revoke_session,
  revoke_all_user_sessions, rotate_session_refresh_token,
}
use monierave.Banking.Audit.{FinancialAuditParams, create_financial_audit, text_value}
use monierave.Banking.Notification.{time_now}

pub record RotateRefreshTokenTxParams : Type 0 where
  pub session_id : Uuid
  pub username : String
  pub presented_token_hash : List ℕ
  pub presented_refresh_id : Uuid
  pub presented_device_hash : List ℕ
  pub new_token_hash : List ℕ
  pub new_refresh_id : Uuid

unfoldable pub constant_time_hash_equal : List ℕ → List ℕ → Bool
unfolding bytes_equal
constant_time_hash_equal expected actual =
    length expected == length actual && bytes_equal expected actual

abbrev pub session_audit : Session → String → String → String → String → AuditLogParams
session_audit s event actor from_state to_state = record {
  entity_type = "session";
  entity_id = s.id;
  correlation_id = s.id;
  event_type = event;
  actor = actor;
  from_state = text_value from_state;
  to_state = text_value to_state;
  message = none;
  metadata = ("user_agent", text s.user_agent) ∷ ("client_ip", text s.client_ip) ∷ [];
}

unfoldable pub create_session_audit : Session → String → String → String → String → Tx (Unit {0})
create_session_audit s event actor from_state to_state = do
  create_audit_log (session_audit s event actor from_state to_state)
  pure tt

-- The loops over the sessions that an update revoked.
unfoldable pub audit_each : List Session → String → Tx (Unit {0})
audit_each [] event = pure tt
audit_each (s ∷ ss) event = do
  create_session_audit s event "user" "active" "revoked"
  audit_each ss event

abbrev pub login_audit : Session → FinancialAuditParams
login_audit s = record {
  entity_type = "session";
  entity_id = s.id;
  correlation_id = s.id;
  event_type = "login_succeeded";
  actor = s.username;
  from_state = "";
  to_state = "authenticated";
  message = none;
  metadata = ("client_ip", text s.client_ip) ∷ ("user_agent", text s.user_agent) ∷ [];
}

unfoldable pub create_exclusive_session : CreateSessionParams → Tx Session
create_exclusive_session p = do
  get_user p.username
  replaced ← revoke_all_user_sessions p.username (some "replaced_by_new_login")
  audit_each replaced "session_replaced_by_login"
  result ← create_session p
  create_session_audit result "session_created" "user" "" "active"
  create_financial_audit (login_audit result)
  pure result

unfoldable pub create_exclusive_session_tx : CreateSessionParams → Tx Session
create_exclusive_session_tx p = exec_tx (create_exclusive_session p)

unfoldable pub validate_session : Uuid → String → List ℕ → Tx (Unit {0})
validate_session u name device_hash = do
  session ← get_session u
  fail_if (not (str_eq session.username name)) session_mismatch
  fail_if (is_some session.revoked_at) session_revoked
  now ← time_now
  fail_if (not (ltb now session.expires_at)) session_expired
  fail_if (not (constant_time_hash_equal session.device_token_hash device_hash)) device_mismatch

-- The stored refresh token is not the one that is presented.
abbrev pub token_differs : RotateRefreshTokenTxParams → Session → Bool
token_differs p s =
    not (constant_time_hash_equal s.refresh_token_hash p.presented_token_hash)
    || not (s.refresh_token_id == p.presented_refresh_id)

-- The revocation commits; that the token was reused is told by `none`.
unfoldable pub revoke_reused : RotateRefreshTokenTxParams → Session → Tx (Option Session)
revoke_reused p session = do
  revoke_session p.session_id (some "refresh_token_reuse")
  create_session_audit session "refresh_token_reuse_detected" "security" "active" "revoked"
  pure none

unfoldable pub rotate_matching : RotateRefreshTokenTxParams → Tx (Option Session)
rotate_matching p = do
  result ← rotate_session_refresh_token p.session_id p.new_token_hash p.new_refresh_id
  create_session_audit result "refresh_token_rotated" "user" "active" "active"
  pure (some result)

unfoldable pub rotate_with_queries : RotateRefreshTokenTxParams → Tx (Option Session)
rotate_with_queries p = do
  session ← get_session_for_update p.session_id
  fail_if (not (str_eq session.username p.username)) session_mismatch
  fail_if (is_some session.revoked_at) session_revoked
  now ← time_now
  fail_if (not (ltb now session.expires_at)) session_expired
  fail_if (not (constant_time_hash_equal session.device_token_hash p.presented_device_hash))
      device_mismatch
  if token_differs p session then revoke_reused p session else rotate_matching p

abbrev pub reuse_is_error : Option Session → Tx Session
reuse_is_error none = raise refresh_token_reuse
reuse_is_error (some s) = pure s

unfoldable pub rotate_refresh_token_tx : RotateRefreshTokenTxParams → Tx Session
rotate_refresh_token_tx p = do rotation ← exec_tx (rotate_with_queries p); reuse_is_error rotation

-- `if errors.Is(err, pgx.ErrNoRows) { return nil }` around what is left to do.
abbrev pub audit_logout : String → Option Session → Tx (Unit {0})
audit_logout actor none = pure tt
audit_logout actor (some s) = create_session_audit s "session_logged_out" actor "active" "revoked"

abbrev pub revoke_found : Uuid → List ℕ → String → String → Option Session → Tx (Unit {0})
revoke_found u device_hash reason actor none = pure tt
revoke_found u device_hash reason actor (some current) = do
  fail_if (not (constant_time_hash_equal current.device_token_hash device_hash)) device_mismatch
  session ← row_or_none (revoke_session u (text_value reason))
  audit_logout actor session

unfoldable pub revoke_session_tx : Uuid → List ℕ → String → String → Tx (Unit {0})
revoke_session_tx u device_hash reason actor = exec_tx (do
  current ← row_or_none (get_session_for_update u)
  revoke_found u device_hash reason actor current)

unfoldable pub revoke_all_user_sessions_tx : String → String → String → Tx (Unit {0})
revoke_all_user_sessions_tx name reason event =
    exec_tx
      (do sessions ← revoke_all_user_sessions name (text_value reason); audit_each sessions event)
