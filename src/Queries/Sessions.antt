-- ===== src/Queries/Sessions.antt =====
-- The queries on `sessions` (db/sqlc/session.sql.go). Written out are the unique indexes of
-- db/migration/000012_secure_sessions.up.sql and 000020_exclusive_device_sessions.up.sql.

use monierave.Base.{
  ℕ, bytes_equal, String, List, [], ◌∷◌, ◌++◌, Option, none, some, Bool, ◌&&◌, ◌==◌, not, ltb,
  str_eq, find_first, select, update_where, order_by, if◌then◌else◌, map,
}
use monierave.Models.{Uuid, Time, Session, Fault, constraint, db_fault}
use monierave.Models.Tables.{Db}
use monierave.Store.{Tx, query, one, ok, err}
use monierave.Queries.Ledger.{is_some}

abbrev pub has_session_id : Uuid → Session → Bool
has_session_id u s = s.id == u

abbrev pub session_by_id : Uuid → List Session → Option Session
session_by_id u = find_first (has_session_id u)

abbrev pub with_sessions : Db → List Session → Db
with_sessions d rows = record d { sessions = rows }

unfoldable pub get_session : Uuid → Tx Session
get_session u = query (λ d. one (session_by_id u d.sessions) (λ s. (s, d)))

unfoldable pub get_session_for_update : Uuid → Tx Session
get_session_for_update u = query (λ d. one (session_by_id u d.sessions) (λ s. (s, d)))

-- CreateSessionParams
pub record CreateSessionParams : Type 0 where
  pub id : Uuid
  pub username : String
  pub refresh_token_hash : List ℕ
  pub refresh_token_id : Uuid
  pub device_token_hash : List ℕ
  pub user_agent : String
  pub client_ip : String
  pub expires_at : Time

abbrev pub new_session : CreateSessionParams → Time → Session
new_session p now = record {
  id = p.id;
  username = p.username;
  user_agent = p.user_agent;
  client_ip = p.client_ip;
  expires_at = p.expires_at;
  created_at = now;
  refresh_token_hash = p.refresh_token_hash;
  refresh_token_id = p.refresh_token_id;
  last_refreshed_at = none;
  revoked_at = none;
  revoked_reason = none;
  device_token_hash = p.device_token_hash;
}

-- WHERE revoked_at IS NULL
abbrev pub is_unrevoked : Session → Bool
is_unrevoked s = not (is_some s.revoked_at)

-- WHERE username = $1 AND revoked_at IS NULL
abbrev pub unrevoked_of : String → Session → Bool
unrevoked_of name s = str_eq s.username name && is_unrevoked s

-- The unique index that a new row breaks.
unfoldable pub session_violation : CreateSessionParams → List Session → Option Fault
session_violation p rows =
    if is_some (session_by_id p.id rows)
    then some (constraint "sessions_pkey")
    else if is_some (find_first (λ s. bytes_equal s.refresh_token_hash p.refresh_token_hash) rows)
    then some (constraint "sessions_refresh_token_hash_idx")
    else if is_some (find_first (λ s. bytes_equal s.device_token_hash p.device_token_hash) rows)
    then some (constraint "sessions_device_token_hash_idx")
    else if is_some (find_first (unrevoked_of p.username) rows)
    then some (constraint "sessions_one_active_per_user_idx")
    else none

unfoldable pub create_session : CreateSessionParams → Tx Session
create_session p = query (λ d. elim (session_violation p d.sessions) [
  | some f ↦ err (db_fault f)
  | none ↦ ok (new_session p d.clock, with_sessions d (d.sessions ++ new_session p d.clock ∷ []))
])

-- SET revoked_at = COALESCE(revoked_at, now()), revoked_reason = COALESCE(revoked_reason, $1)
abbrev pub revoked : Option String → Time → Session → Session
revoked reason now s = record s {
  revoked_at = some (elim s.revoked_at [ none ↦ now | some t ↦ t ]);
  revoked_reason = elim s.revoked_reason [ none ↦ reason | some r ↦ some r ];
}

-- WHERE id = $2 AND revoked_at IS NULL
abbrev pub revocable : Uuid → Session → Bool
revocable u s = s.id == u && is_unrevoked s

unfoldable pub revoke_session : Uuid → Option String → Tx Session
revoke_session u reason = query (λ d. one (find_first (revocable u) d.sessions) (λ s. (
  revoked reason d.clock s,
  with_sessions d (update_where (revocable u) (revoked reason d.clock) d.sessions),
)))

unfoldable pub revoke_all_user_sessions : String → Option String → Tx (List Session)
revoke_all_user_sessions name reason = query (λ d. ok (
  map (revoked reason d.clock) (select (unrevoked_of name) d.sessions),
  with_sessions d (update_where (unrevoked_of name) (revoked reason d.clock) d.sessions),
))

-- SET refresh_token_hash = $2, refresh_token_id = $3, last_refreshed_at = now()
abbrev pub rotated : List ℕ → Uuid → Time → Session → Session
rotated hash refresh_id now s = record s {
  refresh_token_hash = hash;
  refresh_token_id = refresh_id;
  last_refreshed_at = some now;
}

-- Another session has the hash already.
abbrev pub hash_taken : Uuid → List ℕ → Session → Bool
hash_taken u hash s = not (s.id == u) && bytes_equal s.refresh_token_hash hash

unfoldable pub rotate_session_refresh_token : Uuid → List ℕ → Uuid → Tx Session
rotate_session_refresh_token u hash refresh_id = query (λ d.
    if is_some (find_first (hash_taken u hash) d.sessions)
    then err (db_fault (constraint "sessions_refresh_token_hash_idx"))
    else one (session_by_id u d.sessions) (λ s. (
      rotated hash refresh_id d.clock s,
      with_sessions d
          (update_where (has_session_id u) (rotated hash refresh_id d.clock) d.sessions),
    )))

unfoldable pub delete_session : Uuid → Tx (Unit {0})
delete_session u = query (λ d. ok (tt, with_sessions d (select (λ s. not (s.id == u)) d.sessions)))

-- ORDER BY created_at DESC
unfoldable pub list_sessions : String → Tx (List Session)
list_sessions name = query (λ d. ok (
  order_by (λ s t. ltb t.created_at s.created_at) (select (λ s. str_eq s.username name) d.sessions),
  d,
))
