-- ===== src/Sessions/Reuse.antt =====
-- What a rotation of a refresh token comes to, and what becomes of a token that is presented twice.

use monierave.Base.{Option, none, some, inl, inr}
use monierave.Models.{Session, Error, rollback_failed, db_fault, refresh_token_reuse}
use monierave.Models.Tables.{Db}
use monierave.Store.Rules.{Runs, pure_rule, raise_rule, then_rule, bind_rule, fail_if_rule, weaken}
use monierave.Store.Atomic.{
  of_fault, of_rollback, TxError, from_body, unrolled, refused, exec_tx_rule,
}
use monierave.Banking.Notification.{time_now_rule}
use monierave.Sessions.{
  RotateRefreshTokenTxParams, rotate_with_queries, reuse_is_error, rotate_refresh_token_tx,
}
use monierave.Sessions.Rules.{get_session_for_update_rule}
use monierave.Sessions.Validity.{
  Justified, missing_unusable, stranger_unusable, revoked_unusable, expired_unusable,
  device_unusable, Usable-of_guards,
}
use monierave.Sessions.Rotation.{
  Rotated, RotationError, justified, reused, Rotation, Rotation-decided,
}

rotate_with_queries-Rotation :
    (p : RotateRefreshTokenTxParams) (d : Db)
    → Runs
        (λ e d'. Justified p.session_id p.username p.presented_device_hash d e)
        (Rotation p d)
        (rotate_with_queries p)
        d
unfolding rotate_with_queries
rotate_with_queries-Rotation p d =
    let u = p.session_id in
    let name = p.username in
    let device_hash = p.presented_device_hash in
    then_rule (
      get_session_for_update_rule (λ f _. inr (of_fault f)) _
        (λ missing. inl (missing_unusable u name device_hash d missing))
        λ s found. then_rule (
          fail_if_rule _ (λ h. inl (stranger_unusable u name device_hash d s found h))
            λ own. then_rule (
              fail_if_rule _ (λ h. inl (revoked_unusable u name device_hash d s found h))
                λ unrevoked. then_rule (
                  time_now_rule (
                    then_rule (
                      fail_if_rule _ (λ h. inl (expired_unusable u name device_hash d s found h))
                        λ deadline. then_rule (
                          fail_if_rule _ (λ h. inl (device_unusable u name device_hash d s found h))
                            λ device.
                              Rotation-decided p d
                                (Usable-of_guards u name device_hash d s found own unrevoked
                                  deadline device)
                                s found)))))))

RotationError-of_tx :
    (p : RotateRefreshTokenTxParams) (d : Db) (e : Error) (d' : Db)
    → TxError (λ x _. Justified p.session_id p.username p.presented_device_hash d x) d e d'
    → RotationError p d e d'
RotationError-of_tx p d _ _ (from_body e d' h) = justified e h
RotationError-of_tx p d _ _ (unrolled e d' (inl h)) = justified (rollback_failed e) (inl h)
RotationError-of_tx p d _ _ (unrolled e d' (inr h)) =
    justified (rollback_failed e) (inr (of_rollback e h))
RotationError-of_tx p d _ _ (refused f) = justified (db_fault f) (inr (of_fault f))

finish :
    (p : RotateRefreshTokenTxParams) (d : Db) (o : Option Session) (d' : Db)
    → Rotation p d o d'
    → Runs (RotationError p d) (Rotated p d) (reuse_is_error o) d'
finish p d none d' h = raise_rule refresh_token_reuse (reused d' h)
finish p d (some r) d' h = pure_rule r h

-- A rotation has one of these ends. The session may be used by the presented user from the presented
-- device now, the presented token is the stored one, and the new one takes its place, in this session alone. Or
-- the session may be used, the presented token is not the stored one, the error is
-- `refresh_token_reuse`, and the session is revoked, it alone. Or the session may not be used or the
-- outside failed, and the database is as it was.
pub rotate_refresh_token_tx-outcome :
    (p : RotateRefreshTokenTxParams) (d : Db)
    → Runs (RotationError p d) (Rotated p d) (rotate_refresh_token_tx p) d
unfolding rotate_refresh_token_tx
rotate_refresh_token_tx-outcome p d =
    bind_rule
      (weaken (exec_tx_rule (rotate_with_queries-Rotation p d)) (λ _ _ h. h)
        (λ e d' h. RotationError-of_tx p d e d' h))
      (λ o d' h. finish p d o d' h)
