-- ===== src/Tests/Logins.antt =====
-- Logins, rotations and logouts of alice.
use monierave.Base.{
  ◌≡◌, refl, ◌≢◌, ℕ, ◌∷◌, [], List, some, true, false, Bool, arith, ap, find_first, update_where,
  select, bytes_equal, is_empty,
}
use monierave.Models.Tables.{Db}
use monierave.Store.{
  World, Result, ok, err, ◌>>=◌, pure, raise, query, fail_if, end_tx, exec_tx, Tx, catch,
}
use monierave.Store.After.{after}
use monierave.Store.Rules.{Runs, AnyError}
use monierave.Queries.Records.{create_audit_log, get_user}
use monierave.Queries.Sessions.{
  CreateSessionParams, new_session, revoked, rotated, session_violation, create_session,
  get_session, get_session_for_update, revoke_session, revoke_all_user_sessions,
  rotate_session_refresh_token,
}
use monierave.Banking.Audit.{create_financial_audit}
use monierave.Banking.Notification.{time_now}
use monierave.Sessions.{
  constant_time_hash_equal, create_session_audit, audit_each, create_exclusive_session,
  revoke_reused, rotate_matching, rotate_with_queries, create_exclusive_session_tx,
  validate_session, RotateRefreshTokenTxParams, rotate_refresh_token_tx, revoke_session_tx,
  revoke_all_user_sessions_tx,
}
use monierave.Sessions.Kept.{OneActive}
use monierave.Sessions.Login.{LoggedIn, create_exclusive_session_tx-LoggedIn}
use monierave.Sessions.Validity.{Usable, Justified, validate_session-Usable}
use monierave.Sessions.Rotation.{RotationError, Rotated}
use monierave.Sessions.Reuse.{rotate_refresh_token_tx-outcome}
use monierave.Sessions.Spent.{rotate_refresh_token_tx-once}
use monierave.Sessions.Revocation.{LoggedOut, revoke_session_tx-LoggedOut}
use monierave.Sessions.Everywhere.{
  LoggedOutEverywhere, revoke_all_user_sessions_tx-LoggedOutEverywhere,
}
use monierave.Sessions.Lifetime.{
  login, none_yet, one_more, SessionSteps-OneActive, revoked_for_good,
}
use monierave.Tests.Data.{sample_db}
use monierave.Tests.Scenario.{quiet_world}

abbrev phone : CreateSessionParams
phone = record {
  id = 7_001;
  username = "alice";
  refresh_token_hash = 1 ∷ 1 ∷ [];
  refresh_token_id = 7_101;
  device_token_hash = 5 ∷ [];
  user_agent = "phone";
  client_ip = "10.0.0.1";
  expires_at = 100_000_000_000;
}

abbrev laptop : CreateSessionParams
laptop = record phone {
  id = 7_002;
  refresh_token_hash = 2 ∷ 2 ∷ [];
  refresh_token_id = 7_102;
  device_token_hash = 6 ∷ [];
  user_agent = "laptop";
}

abbrev phone_db : Db
phone_db = record sample_db { sessions = new_session phone sample_db.clock ∷ [] }

abbrev logged_out_db : Db
logged_out_db = record sample_db {
  sessions = revoked (some "user_logout") sample_db.clock (new_session phone sample_db.clock) ∷ [];
}

abbrev exchange : RotateRefreshTokenTxParams
exchange = record {
  session_id = 7_001;
  username = "alice";
  presented_token_hash = 1 ∷ 1 ∷ [];
  presented_refresh_id = 7_101;
  presented_device_hash = 5 ∷ [];
  new_token_hash = 3 ∷ 3 ∷ [];
  new_refresh_id = 7_103;
}

abbrev stolen : RotateRefreshTokenTxParams
stolen = record exchange { new_token_hash = 9 ∷ 9 ∷ []; new_refresh_id = 7_109 }

create_exclusive_session_tx-LoggedIn_example :
    Runs
      (λ _ d'. d' ≡ phone_db)
      (LoggedIn laptop phone_db)
      (create_exclusive_session_tx laptop)
      phone_db
create_exclusive_session_tx-LoggedIn_example = create_exclusive_session_tx-LoggedIn laptop phone_db

validate_session-Usable_example :
    Runs
      (λ e d'. (d' ≡ phone_db) × Justified 7_001 "alice" (5 ∷ []) phone_db e)
      (λ _ d'. (d' ≡ phone_db) × Usable 7_001 "alice" (5 ∷ []) phone_db)
      (validate_session 7_001 "alice" (5 ∷ []))
      phone_db
validate_session-Usable_example = validate_session-Usable 7_001 "alice" (5 ∷ []) phone_db

rotate_refresh_token_tx-outcome_example :
    Runs
      (RotationError exchange phone_db)
      (Rotated exchange phone_db)
      (rotate_refresh_token_tx exchange)
      phone_db
rotate_refresh_token_tx-outcome_example = rotate_refresh_token_tx-outcome exchange phone_db

abbrev first : List ℕ → ℕ
first [] = 0
first (x ∷ xs) = x

other_token : exchange.new_token_hash ≢ exchange.presented_token_hash
other_token e = let one_is_three = ap first e in omega (arith, one_is_three)

laptop_token : laptop.refresh_token_hash ≢ exchange.presented_token_hash
laptop_token e = let two_is_one = ap first e in omega (arith, two_is_one)

abbrev phone_world : World
phone_world = record quiet_world { db = phone_db }

abbrev exchanged_world : World
exchanged_world = (rotate_refresh_token_tx exchange phone_world).1

exchange_accepted : rotate_refresh_token_tx exchange phone_world ≡ (
  ok (rotated (3 ∷ 3 ∷ []) 7_103 sample_db.clock (new_session phone sample_db.clock)),
  exchanged_world,
)
unfolding find_first update_where select bytes_equal pure raise query ◌>>=◌ end_tx exec_tx fail_if
    catch get_user revoke_all_user_sessions session_violation create_session create_audit_log
    create_session_audit audit_each create_financial_audit create_exclusive_session
    create_exclusive_session_tx time_now get_session get_session_for_update validate_session
    constant_time_hash_equal revoke_session rotate_session_refresh_token revoke_reused
    rotate_matching rotate_with_queries rotate_refresh_token_tx is_empty
exchange_accepted = refl

-- The token is presented again once alice has logged in from the laptop.
rotate_refresh_token_tx-once_example :
    Runs AnyError
      (λ _ _. ⊥)
      (rotate_refresh_token_tx stolen)
      (after (create_exclusive_session_tx laptop) quiet_world exchanged_world.db)
rotate_refresh_token_tx-once_example =
    rotate_refresh_token_tx-once exchange stolen phone_world exchanged_world
      (rotated (3 ∷ 3 ∷ []) 7_103 sample_db.clock (new_session phone sample_db.clock))
      (after (create_exclusive_session_tx laptop) quiet_world exchanged_world.db) exchange_accepted
      other_token (one_more exchanged_world.db _ none_yet (login laptop quiet_world))
      (tt, laptop_token) refl refl

revoke_session_tx-LoggedOut_example :
    Runs
      (λ _ d'. d' ≡ phone_db)
      (λ _ d'. LoggedOut 7_001 (5 ∷ []) phone_db d')
      (revoke_session_tx 7_001 (5 ∷ []) "user_logout" "user")
      phone_db
revoke_session_tx-LoggedOut_example =
    revoke_session_tx-LoggedOut 7_001 (5 ∷ []) "user_logout" "user" phone_db

revoke_all_user_sessions_tx-LoggedOutEverywhere_example :
    Runs
      (λ _ d'. d' ≡ phone_db)
      (λ _ d'. LoggedOutEverywhere "alice" "password_changed" phone_db d')
      (revoke_all_user_sessions_tx "alice" "password_changed" "sessions_revoked")
      phone_db
revoke_all_user_sessions_tx-LoggedOutEverywhere_example =
    revoke_all_user_sessions_tx-LoggedOutEverywhere "alice" "password_changed" "sessions_revoked"
      phone_db

abbrev after_phone : Db
after_phone = after (create_exclusive_session_tx phone) quiet_world sample_db

SessionSteps-OneActive_example :
    OneActive (after (create_exclusive_session_tx laptop) quiet_world after_phone).sessions
SessionSteps-OneActive_example =
    SessionSteps-OneActive sample_db
      (after (create_exclusive_session_tx laptop) quiet_world after_phone) refl
      (one_more after_phone _ (one_more sample_db _ none_yet (login phone quiet_world))
        (login laptop quiet_world))

revoked_for_good_example :
    Runs AnyError
      (λ _ _. ⊥)
      (validate_session 7_001 "alice" (5 ∷ []))
      (after (create_exclusive_session_tx laptop) quiet_world logged_out_db)
    × Runs AnyError
        (λ _ _. ⊥)
        (rotate_refresh_token_tx exchange)
        (after (create_exclusive_session_tx laptop) quiet_world logged_out_db)
unfolding find_first
revoked_for_good_example =
    revoked_for_good logged_out_db
      (after (create_exclusive_session_tx laptop) quiet_world logged_out_db)
      (revoked (some "user_logout") sample_db.clock (new_session phone sample_db.clock)) exchange
      "alice" (5 ∷ []) refl refl (one_more logged_out_db _ none_yet (login laptop quiet_world))

abbrev accepted : {A : Type 0} → Result A × World → Bool
accepted (ok a, w) = true
accepted (err e, w) = false

abbrev exchanged_then : {A : Type 0} → Tx A → Tx A
exchanged_then m =
    create_exclusive_session_tx phone >>= λ _. rotate_refresh_token_tx exchange >>= λ _. m

-- The exchanged session is valid; the old token is refused, and with it the session from then on.
session_runs :
    (accepted (exchanged_then (validate_session 7_001 "alice" (5 ∷ [])) quiet_world) ≡ true)
    × (accepted (exchanged_then (rotate_refresh_token_tx stolen) quiet_world) ≡ false)
    × (accepted (
          exchanged_then
            (catch (rotate_refresh_token_tx stolen) (λ _. pure (new_session phone 0)) >>= λ _.
              validate_session 7_001 "alice" (5 ∷ []))
            quiet_world)
        ≡ false)
unfolding find_first update_where select bytes_equal pure raise query ◌>>=◌ end_tx exec_tx fail_if
    catch get_user revoke_all_user_sessions session_violation create_session create_audit_log
    create_session_audit audit_each create_financial_audit create_exclusive_session
    create_exclusive_session_tx time_now get_session get_session_for_update validate_session
    constant_time_hash_equal revoke_session rotate_session_refresh_token revoke_reused
    rotate_matching rotate_with_queries rotate_refresh_token_tx is_empty
session_runs = (refl, refl, refl)
