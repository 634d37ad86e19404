-- ===== src/Sessions/Login.antt =====
-- A login leaves the user with one session: `CreateExclusiveSessionTx`.

use mathlib.Core.Option
use monierave.Base.{
  ◌≡◌, refl, ◌≢◌, String, List, [], ◌∷◌, ◌++◌, Option, some, eq_iff, if◌then◌else◌, sym, ◌∙◌, arith,
  not_equal, ==_iff, find_first, update_where, find_first-append, find_first-update_where,
  count_where, count_where-append, count_where-none, or_else-none,
}
use monierave.Models.{Uuid, Time, Session}
use monierave.Models.Tables.{Db}
use monierave.Store.Rules.{Runs, AnyError, pure_rule, then_rule, bind_rule, same_start, weaken}
use monierave.Store.Atomic.{exec_tx-atomic}
use monierave.Queries.Records.{get_user_rule}
use monierave.Queries.Sessions.{
  has_session_id, session_by_id, CreateSessionParams, new_session, unrevoked_of, revoked,
}
use monierave.Sessions.{create_exclusive_session, create_exclusive_session_tx}
use monierave.Sessions.Kept.{
  Admitted, Admitted-of_violation, SessionsKept, SessionsKept-trans, SessionsKept-revoked,
  SessionsKept-created,
}
use monierave.Sessions.Rules.{
  revoke_all_user_sessions_rule, create_session_rule, create_session_audit_rule, audit_each_rule,
}
use monierave.Banking.Audit.{create_financial_audit_rule}

-- A session of the user that was not revoked is revoked now; any other is as it was.
abbrev pub logged_out : String → Option String → Time → Session → Session
logged_out name reason now s = if unrevoked_of name s then revoked reason now s else s

-- What a login leaves: the new session, every other one as it was or logged out, and no second session of
-- the user that is not revoked.
pub record LoggedIn (p : CreateSessionParams) (d : Db) (r : Session) (d' : Db) : Type 0 where
  pub result : r ≡ new_session p d.clock
  pub row : session_by_id p.id d'.sessions ≡ some r
  pub others :
      (u : Uuid)
      → u ≢ p.id
      → session_by_id u d'.sessions
        ≡ Option.map
            (logged_out p.username (some "replaced_by_new_login") d.clock)
            (session_by_id u d.sessions)
  pub only_one : count_where (unrevoked_of p.username) d'.sessions ≡ 1
  pub same_books : d'.books ≡ d.books

abbrev pub sessions_after_login : CreateSessionParams → Time → List Session → List Session
sessions_after_login p now rows =
    update_where (unrevoked_of p.username) (revoked (some "replaced_by_new_login") now) rows
    ++ new_session p now ∷ []

module _ (p : CreateSessionParams) (now : Time) (rows : List Session) where
  left : List Session
  left = update_where (unrevoked_of p.username) (revoked (some "replaced_by_new_login") now) rows

  module _ (a : Admitted p left) where
    login_row : session_by_id p.id (sessions_after_login p now rows) ≡ some (new_session p now)
    unfolding left find_first
    login_row =
        find_first-append (has_session_id p.id) left (new_session p now ∷ [])
        ∙ rw (a.new_id, (==_iff p.id p.id).1 refl) refl

    login_others :
        (u : Uuid)
        → u ≢ p.id
        → session_by_id u (sessions_after_login p now rows)
          ≡ Option.map
              (logged_out p.username (some "replaced_by_new_login") now)
              (session_by_id u rows)
    unfolding left find_first
    login_others u other =
        find_first-append (has_session_id u) left (new_session p now ∷ [])
        ∙ rw (not_equal p.id u (λ e. other (sym e))) (
            or_else-none (find_first (has_session_id u) left)
            ∙ find_first-update_where (has_session_id u) (unrevoked_of p.username) _ rows
                (λ s. refl))

    login_only_one : count_where (unrevoked_of p.username) (sessions_after_login p now rows) ≡ 1
    unfolding left count_where
    login_only_one =
        count_where-append (unrevoked_of p.username) left (new_session p now ∷ [])
        ∙ rw
            (
              count_where-none (unrevoked_of p.username) left a.none_active,
              (eq_iff p.username p.username).1 refl,
            )
            (omega arith)

create_exclusive_session-LoggedIn :
    (p : CreateSessionParams) (d : Db)
    → Runs AnyError
        (λ r d'. LoggedIn p d r d' × SessionsKept d.sessions d'.sessions)
        (create_exclusive_session p)
        d
unfolding create_exclusive_session left
create_exclusive_session-LoggedIn p d = then_rule (
    get_user_rule (λ _ _. tt) _ (λ _. tt)
      λ user found. then_rule (
        revoke_all_user_sessions_rule (λ _ _. tt) _ _
          (bind_rule (audit_each_rule (λ _ _. tt) _ _ _) λ _ d1 h1. same_start h1.db (
            then_rule (
              create_session_rule (λ _ _. tt) p
                λ fresh. bind_rule (create_session_audit_rule (λ _ _. tt) _ _ _ _ _ _) λ _ d2 h2.
                  same_start h2.db (
                    then_rule (
                      create_financial_audit_rule (λ _ _. tt) _
                        (let a = Admitted-of_violation p (left p d.clock d.sessions) fresh in
                          pure_rule _ (
                            record {
                              result = refl;
                              row = login_row p d.clock d.sessions a;
                              others = login_others p d.clock d.sessions a;
                              only_one = login_only_one p d.clock d.sessions a;
                              same_books = refl;
                            },
                            SessionsKept-trans
                                (SessionsKept-revoked (unrevoked_of p.username) _ d.clock
                                  d.sessions)
                                (SessionsKept-created p d.clock _ a),
                          )))))))))

-- A login that succeeds returns the new session and stores it, revokes every session of the user that was
-- not revoked and changes no other session, so that the new session is the only one of the user that is not revoked;
-- one that fails leaves the whole database as it was. Neither changes the books.
pub create_exclusive_session_tx-LoggedIn :
    (p : CreateSessionParams) (d : Db)
    → Runs (λ _ d'. d' ≡ d) (LoggedIn p d) (create_exclusive_session_tx p) d
unfolding create_exclusive_session_tx
create_exclusive_session_tx-LoggedIn p d =
    weaken (exec_tx-atomic _ d (create_exclusive_session-LoggedIn p d)) (λ _ _ h. h.0) (λ _ _ e. e)

pub create_exclusive_session_tx-SessionsKept :
    (p : CreateSessionParams) (d : Db)
    → Runs
        (λ _ d'. d' ≡ d)
        (λ _ d'. SessionsKept d.sessions d'.sessions)
        (create_exclusive_session_tx p)
        d
unfolding create_exclusive_session_tx
create_exclusive_session_tx-SessionsKept p d =
    weaken (exec_tx-atomic _ d (create_exclusive_session-LoggedIn p d)) (λ _ _ h. h.1) (λ _ _ e. e)
