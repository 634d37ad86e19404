-- ===== src/Sessions/Everywhere.antt =====
-- Logging out everywhere: `RevokeAllUserSessionsTx`.
use mathlib.Core.Option
use monierave.Base.{
  ◌≡◌, refl, String, List, Option, sym, subst, count_where, arith, inl, inr, Bool-cases,
  find_first-update_where, update_where, [], ◌∷◌,
}
use monierave.Models.{Uuid, Time, Session}
use monierave.Models.Tables.{Db}
use monierave.Store.Rules.{Runs, AnyError, then_rule, weaken}
use monierave.Store.Atomic.{exec_tx-atomic}
use monierave.Queries.Sessions.{has_session_id, session_by_id, revoked, unrevoked_of}
use monierave.Banking.Audit.{text_value}
use monierave.Sessions.{revoke_all_user_sessions_tx}
use monierave.Sessions.Kept.{SessionsKept, SessionsKept-revoked}
use monierave.Sessions.Login.{logged_out}
use monierave.Sessions.Rules.{revoke_all_user_sessions_rule, audit_each_rule}

-- Every session of the user that was not revoked is revoked now; any other is as it was.
pub record LoggedOutEverywhere (name reason : String) (d d' : Db) : Type 0 where
  pub each :
      (u : Uuid)
      → session_by_id u d'.sessions
        ≡ Option.map (logged_out name (text_value reason) d.clock) (session_by_id u d.sessions)
  pub none_left : count_where (unrevoked_of name) d'.sessions ≡ 0
  pub same_books : d'.books ≡ d.books
  pub kept : SessionsKept d.sessions d'.sessions

none_after :
    (name : String) (reason : Option String) (now : Time) (rows : List Session)
    → count_where (unrevoked_of name) (update_where (unrevoked_of name) (revoked reason now) rows)
      ≡ 0
unfolding count_where update_where
none_after name reason now [] = refl
none_after name reason now (s ∷ ss) = elim (Bool-cases (unrevoked_of name s)) [
  | inl hit ↦ rw hit (ground (arith, none_after name reason now ss))
  | inr miss ↦ rw miss (rw miss (omega (arith, none_after name reason now ss)))
]

-- Logging out everywhere revokes every session of the user that was not revoked, so that none is left,
-- and changes no other session; where it fails, the whole database is as it was. Neither changes the
-- books.
pub revoke_all_user_sessions_tx-LoggedOutEverywhere :
    (name reason event : String) (d : Db)
    → Runs
        (λ _ d'. d' ≡ d)
        (λ _ d'. LoggedOutEverywhere name reason d d')
        (revoke_all_user_sessions_tx name reason event)
        d
unfolding revoke_all_user_sessions_tx
revoke_all_user_sessions_tx-LoggedOutEverywhere name reason event d = exec_tx-atomic _ d (
    then_rule (
      revoke_all_user_sessions_rule {E = AnyError} (λ _ _. tt) name (text_value reason)
        (weaken (audit_each_rule {E = AnyError} (λ _ _. tt) _ event _)
          (λ _ d' a. subst (LoggedOutEverywhere name reason d) (sym a.db) (record {
            each = λ u.
                find_first-update_where (has_session_id u) (unrevoked_of name) _ d.sessions
                  (λ s. refl);
            none_left = none_after name (text_value reason) d.clock d.sessions;
            same_books = refl;
            kept = SessionsKept-revoked (unrevoked_of name) _ d.clock d.sessions;
          }))
          (λ _ _ _. tt))))
