-- ===== src/Sessions/Revocation.antt =====
-- Logging out: `RevokeSessionTx` and `RevokeAllUserSessionsTx`.

use monierave.Base.{
  ℕ, ◌≡◌, refl, ◌≢◌, String, List, Option, none, some, true, not, ◌==◌, ==_iff, sym, ◌∙◌, subst, ap,
  true_of_not, inl, inr, none_ne_some, some_eq, find_first, find_first_sound, find_first_narrow,
  update_where, Bool-cases, and_true, if◌then◌else◌,
}
use monierave.Models.{Uuid, Session, AuditLog}
use monierave.Models.Tables.{Db}
use monierave.Store.Rules.{
  Runs, AnyError, pure_rule, then_rule, bind_rule, fail_if_rule, same_start, weaken,
}
use monierave.Store.Atomic.{exec_tx-atomic}
use monierave.Store.Rows.{Row, no_fault, row_or_none_rule}
use monierave.Queries.Ledger.{is_some}
use monierave.Queries.Sessions.{
  has_session_id, session_by_id, is_unrevoked, revocable, revoked, with_sessions,
}
use monierave.Sessions.{audit_logout, revoke_found, revoke_session_tx}
use monierave.Banking.Audit.{text_value}
use monierave.Sessions.Hashes.{constant_time_hash_equal_iff}
use monierave.Sessions.Kept.{SessionsKept, SessionsKept-revoked, SessionsKept-refl}
use monierave.Sessions.Table.{row_after, others_same}
use monierave.Sessions.Rules.{
  get_session_for_update_rule, revoke_session_rule, create_session_audit_rule,
}

-- The session is not there, or it is revoked; it belonged to the presented device; no other one differs.
pub record LoggedOut (u : Uuid) (device_hash : List ℕ) (d d' : Db) : Type 0 where
  pub gone : (s : Session) → session_by_id u d'.sessions ≡ some s → is_some s.revoked_at ≡ true
  pub device :
      (s : Session) → session_by_id u d.sessions ≡ some s → s.device_token_hash ≡ device_hash
  pub others : (v : Uuid) → v ≢ u → session_by_id v d'.sessions ≡ session_by_id v d.sessions
  pub same_books : d'.books ≡ d.books
  pub kept : SessionsKept d.sessions d'.sessions

module _ (u : Uuid) (device_hash : List ℕ) (reason actor : String) (d : Db) where
  only_it : (s : Session) → revocable u s ≡ true → s.id ≡ u
  only_it s h = (==_iff s.id u).0 (and_true {a = s.id == u} h).0

  -- The session is not there.
  absent : session_by_id u d.sessions ≡ none → LoggedOut u device_hash d d
  absent h = record {
    gone = λ s e. absurd (none_ne_some (sym h ∙ e));
    device = λ s e. absurd (none_ne_some (sym h ∙ e));
    others = λ v _. refl;
    same_books = refl;
    kept = SessionsKept-refl d.sessions;
  }

  module _ (s : Session) (found : session_by_id u d.sessions ≡ some s)
      (device : s.device_token_hash ≡ device_hash) where
    its_device :
        (t : Session) → session_by_id u d.sessions ≡ some t → t.device_token_hash ≡ device_hash
    its_device t e = ap (λ (y : Session). y.device_token_hash) (some_eq (sym e ∙ found)) ∙ device

    -- The session was revoked already.
    revoked_before : find_first (revocable u) d.sessions ≡ none → LoggedOut u device_hash d d
    revoked_before h = record {
      gone = λ t e. elim (Bool-cases (is_some t.revoked_at)) [
        | inl gone ↦ gone
        | inr active ↦ absurd (
            none_ne_some (
              sym h
              ∙ find_first_narrow (has_session_id u) is_unrevoked d.sessions t e (ap not active)))
      ];
      device = its_device;
      others = λ v _. refl;
      same_books = refl;
      kept = SessionsKept-refl d.sessions;
    }

    ends_revoked :
        is_some (if revocable u s then revoked (text_value reason) d.clock s else s).revoked_at
        ≡ true
    ends_revoked =
        let here =
          (==_iff s.id u).1
            ((==_iff s.id u).0 (find_first_sound (has_session_id u) d.sessions s found)) in
        elim (Bool-cases (is_some s.revoked_at)) [
          | inl gone ↦ rw (here, gone) gone
          | inr active ↦ rw (here, active) refl
        ]

    -- The session is revoked now.
    revoked_now : LoggedOut u device_hash d (
        with_sessions d
          (update_where (revocable u) (revoked (text_value reason) d.clock) d.sessions))
    revoked_now = record {
      gone = λ t e.
          let after = some_eq (
            sym e
            ∙ row_after u (revocable u) (revoked (text_value reason) d.clock) d.sessions only_it
                (λ _. refl) u s found) in
          ap (λ (y : Session). is_some y.revoked_at) after ∙ ends_revoked;
      device = its_device;
      others = others_same u (revocable u) _ d.sessions only_it (λ _. refl);
      same_books = refl;
      kept = SessionsKept-revoked (revocable u) _ d.clock d.sessions;
    }

  revoked_db : Db
  revoked_db =
      with_sessions d (update_where (revocable u) (revoked (text_value reason) d.clock) d.sessions)

  audit_logout-LoggedOut :
      (s : Session) (found : session_by_id u d.sessions ≡ some s)
      (device : s.device_token_hash ≡ device_hash) (o : Option Session) (d2 : Db)
      → Row
          (λ _ d2. d2 ≡ revoked_db)
          (λ d2. (d2 ≡ d) × (find_first (revocable u) d.sessions ≡ none))
          o
          d2
      → Runs AnyError (λ _ d'. LoggedOut u device_hash d d') (audit_logout actor o) d2
  unfolding revoked_db
  audit_logout-LoggedOut s found device none d2 (same, none_left) =
      same_start same (pure_rule tt (revoked_before s found device none_left))
  audit_logout-LoggedOut s found device (some t) d2 same = same_start same (
      weaken
        (create_session_audit_rule {E = AnyError} (λ _ _. tt) t "session_logged_out" actor "active"
          "revoked" _)
        (λ _ d' a.
          subst (λ x. LoggedOut u device_hash d x) (sym a.db)
            (of_audit (revoked_now s found device)))
        (λ _ _ _. tt))
    where
      of_audit :
          {logs : List AuditLog} {next : ℕ}
          → LoggedOut u device_hash d revoked_db
          → LoggedOut u device_hash d
              (record revoked_db { audit_logs = logs; next_audit_id = next })
      of_audit h = record {
        gone = h.gone;
        device = h.device;
        others = h.others;
        same_books = h.same_books;
        kept = h.kept;
      }

  revoke_found-LoggedOut :
      (o : Option Session) (d1 : Db)
      → Row
          (λ s d1. (d1 ≡ d) × (session_by_id u d.sessions ≡ some s))
          (λ d1. (d1 ≡ d) × (session_by_id u d.sessions ≡ none))
          o
          d1
      → Runs AnyError
          (λ _ d'. LoggedOut u device_hash d d')
          (revoke_found u device_hash reason actor o)
          d1
  unfolding revoked_db
  revoke_found-LoggedOut none d1 (same, missing) = same_start same (pure_rule tt (absent missing))
  revoke_found-LoggedOut (some s) d1 (same, found) = same_start same (
      then_rule (
        fail_if_rule _ (λ _. tt)
          λ own.
            let device =
              (constant_time_hash_equal_iff s.device_token_hash device_hash).0 (true_of_not own) in
            bind_rule
              (row_or_none_rule (λ d'. (d' ≡ d) × (find_first (revocable u) d.sessions ≡ none))
                (revoke_session_rule {Q = λ _ d'. d' ≡ revoked_db} (no_fault _) u
                  (text_value reason) (λ missing _. (refl, missing)) (λ _ _. refl)))
              λ o d2 h. audit_logout-LoggedOut s found device o d2 h))

-- A logout that succeeds leaves no session of that id that is not revoked, comes from the device of the
-- session if there is one, and changes no other session; one that fails leaves the whole database as
-- it was. Neither changes the books.
pub revoke_session_tx-LoggedOut :
    (u : Uuid) (device_hash : List ℕ) (reason actor : String) (d : Db)
    → Runs
        (λ _ d'. d' ≡ d)
        (λ _ d'. LoggedOut u device_hash d d')
        (revoke_session_tx u device_hash reason actor)
        d
unfolding revoke_session_tx
revoke_session_tx-LoggedOut u device_hash reason actor d = exec_tx-atomic _ d (
    bind_rule
      (row_or_none_rule (λ d'. (d' ≡ d) × (session_by_id u d.sessions ≡ none))
        (get_session_for_update_rule {Q = λ s d'. (d' ≡ d) × (session_by_id u d.sessions ≡ some s)}
          (no_fault _) u (λ missing _. (refl, missing)) (λ s found. (refl, found))))
      (λ o d1 h. revoke_found-LoggedOut u device_hash reason actor d o d1 h))
