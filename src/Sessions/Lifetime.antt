-- ===== src/Sessions/Lifetime.antt =====
-- The sessions over time: logins, rotations and logouts one after another, each under any refusals of
-- the database and any draws.
use mathlib.Core.Bool.{false≢true}
use monierave.Base.{
  ℕ, ◌≡◌, String, List, [], some, true, sym, ◌∙◌, subst, ap, count_where, arith, some_eq,
}
use monierave.Models.{Uuid, Session, Error}
use monierave.Models.Tables.{Db}
use monierave.Store.{World}
use monierave.Store.After.{after, kept_after}
use monierave.Store.Rules.{Runs, AnyError, weaken}
use monierave.Queries.Ledger.{is_some}
use monierave.Queries.Sessions.{CreateSessionParams, session_by_id}
use monierave.Sessions.{
  create_exclusive_session_tx, validate_session, RotateRefreshTokenTxParams,
  rotate_refresh_token_tx, revoke_session_tx, revoke_all_user_sessions_tx,
}
use monierave.Sessions.Kept.{SessionsKept, SessionsKept-refl, SessionsKept-trans, OneActive}
use monierave.Sessions.Login.{create_exclusive_session_tx-SessionsKept}
use monierave.Sessions.Validity.{Usable, validate_session-Usable}
use monierave.Sessions.Rotation.{RotationError, justified, reused}
use monierave.Sessions.Reuse.{rotate_refresh_token_tx-outcome}
use monierave.Sessions.Revocation.{revoke_session_tx-LoggedOut}
use monierave.Sessions.Everywhere.{revoke_all_user_sessions_tx-LoggedOutEverywhere}

-- One operation on the sessions, or anything that leaves them alone, such as time that goes by.
pub data SessionStep (d : Db) : Db → Type 0 where
  login :
      (p : CreateSessionParams) (w : World)
      → SessionStep d (after (create_exclusive_session_tx p) w d)
  rotation :
      (p : RotateRefreshTokenTxParams) (w : World)
      → SessionStep d (after (rotate_refresh_token_tx p) w d)
  logout :
      (u : Uuid) (device_hash : List ℕ) (reason actor : String) (w : World)
      → SessionStep d (after (revoke_session_tx u device_hash reason actor) w d)
  logout_everywhere :
      (name reason event : String) (w : World)
      → SessionStep d (after (revoke_all_user_sessions_tx name reason event) w d)
  elsewhere : (d' : Db) → d'.sessions ≡ d.sessions → SessionStep d d'

pub data SessionSteps (d : Db) : Db → Type 0 where
  none_yet : SessionSteps d d
  one_more : (d1 d2 : Db) → SessionSteps d d1 → SessionStep d1 d2 → SessionSteps d d2

KeptFrom : Db → Db → Type 0
KeptFrom d d' = SessionsKept d.sessions d'.sessions

unchanged : {d d' : Db} → d' ≡ d → SessionsKept d.sessions d'.sessions
unchanged {d} e =
    subst (λ (x : Db). SessionsKept d.sessions x.sessions) (sym e) (SessionsKept-refl d.sessions)

RotationError-kept :
    (p : RotateRefreshTokenTxParams) (d : Db) (e : Error) (d' : Db)
    → RotationError p d e d'
    → SessionsKept d.sessions d'.sessions
RotationError-kept p d _ _ (justified e h) = SessionsKept-refl d.sessions
RotationError-kept p d _ _ (reused d' h) = h.kept

SessionStep-kept : (d d' : Db) → SessionStep d d' → SessionsKept d.sessions d'.sessions
unfolding KeptFrom
SessionStep-kept d _ (login p w) =
    kept_after (KeptFrom d) w
      (weaken (create_exclusive_session_tx-SessionsKept p d) (λ _ _ k. k) (λ _ _ e. unchanged e))
SessionStep-kept d _ (rotation p w) = kept_after (KeptFrom d) w (
    weaken (rotate_refresh_token_tx-outcome p d) (λ _ _ k. k.kept)
      (λ e d' h. RotationError-kept p d e d' h))
SessionStep-kept d _ (logout u device_hash reason actor w) = kept_after (KeptFrom d) w (
    weaken (revoke_session_tx-LoggedOut u device_hash reason actor d) (λ _ _ k. k.kept)
      (λ _ _ e. unchanged e))
SessionStep-kept d _ (logout_everywhere name reason event w) = kept_after (KeptFrom d) w (
    weaken (revoke_all_user_sessions_tx-LoggedOutEverywhere name reason event d) (λ _ _ k. k.kept)
      (λ _ _ e. unchanged e))
SessionStep-kept d d' (elsewhere _ e) =
    subst (λ rows. SessionsKept d.sessions rows) (sym e) (SessionsKept-refl d.sessions)

SessionSteps-kept : (d d' : Db) → SessionSteps d d' → SessionsKept d.sessions d'.sessions
SessionSteps-kept d _ none_yet = SessionsKept-refl d.sessions
SessionSteps-kept d _ (one_more d1 d2 steps step) =
    SessionsKept-trans (SessionSteps-kept d d1 steps) (SessionStep-kept d1 d2 step)

-- However logins, rotations and logouts follow one another and fail, from a database without sessions on, no user has
-- two sessions that are not revoked.
pub SessionSteps-OneActive :
    (d d' : Db) → d.sessions ≡ [] → SessionSteps d d' → OneActive d'.sessions
unfolding count_where
SessionSteps-OneActive d d' empty steps =
    (SessionSteps-kept d d' steps).one_active (subst OneActive (sym empty) (λ name. omega arith))

revoked_unusable :
    (u : Uuid) (name : String) (device_hash : List ℕ) (d d' : Db) (s : Session)
    → session_by_id u d.sessions ≡ some s
    → is_some s.revoked_at ≡ true
    → SessionSteps d d'
    → Usable u name device_hash d'
    → ⊥
revoked_unusable u name device_hash d d' s found gone steps x =
    let (s', found', same) = (SessionSteps-kept d d' steps).each u s found in
    false≢true (
      sym x.unrevoked
      ∙ ap (λ (y : Session). is_some y.revoked_at) (some_eq (sym x.found ∙ found'))
      ∙ ap is_some (same.stays_revoked gone)
      ∙ gone)

-- A revoked session is dead for good: after any sequence of operations, no validation of it succeeds, and no
-- rotation of its refresh token, whoever asks.
pub revoked_for_good :
    (d d' : Db) (s : Session) (p : RotateRefreshTokenTxParams) (name : String)
    (device_hash : List ℕ)
    → session_by_id p.session_id d.sessions ≡ some s
    → is_some s.revoked_at ≡ true
    → SessionSteps d d'
    → Runs AnyError (λ _ _. ⊥) (validate_session p.session_id name device_hash) d'
      × Runs AnyError (λ _ _. ⊥) (rotate_refresh_token_tx p) d'
revoked_for_good d d' s p name device_hash found gone steps = (
  weaken (validate_session-Usable p.session_id name device_hash d')
      (λ _ _ h. revoked_unusable p.session_id name device_hash d d' s found gone steps h.1)
      (λ _ _ _. tt),
  weaken (rotate_refresh_token_tx-outcome p d')
      (λ _ _ h.
        revoked_unusable p.session_id p.username p.presented_device_hash d d' s found gone steps
          h.usable)
      (λ _ _ _. tt),
)
