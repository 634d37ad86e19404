-- ===== src/Sessions/Rules.antt =====
-- A rule for each query on the sessions, and for the audit rows of the session operations.
use monierave.Base.{
  ℕ, ◌≡◌, refl, ◌∙◌, ap, String, List, [], ◌∷◌, ◌++◌, Option, none, some, find_first, select,
  update_where, map,
}
use monierave.Models.{Uuid, Session, AuditLog, Error, no_rows}
use monierave.Models.Tables.{Db}
use monierave.Store.Rules.{
  Runs, Faulty, query_rule, Answer-one, Answer-if, Answer-unless_fault, pure_rule, then_rule,
  bind_rule, weaken,
}
use monierave.Queries.Ledger.{is_some}
use monierave.Queries.Records.{create_audit_log_rule}
use monierave.Queries.Sessions.{
  session_by_id, has_session_id, with_sessions, get_session, get_session_for_update,
  CreateSessionParams, new_session, session_violation, create_session, revoked, revocable,
  revoke_session, unrevoked_of, revoke_all_user_sessions, rotated, hash_taken,
  rotate_session_refresh_token,
}
use monierave.Sessions.{create_session_audit, audit_each}

module _ {E : Error → Db → Type 0} {Q : Session → Db → Type 0} {d : Db} (fault : Faulty E) where
  pub get_session_rule :
      (u : Uuid)
      → (session_by_id u d.sessions ≡ none → E no_rows d)
      → ((s : Session) → session_by_id u d.sessions ≡ some s → Q s d)
      → Runs E Q (get_session u) d
  unfolding get_session
  get_session_rule u missing found =
      query_rule _ fault (Answer-one E Q d (session_by_id u d.sessions) _ missing found)

  pub get_session_for_update_rule :
      (u : Uuid)
      → (session_by_id u d.sessions ≡ none → E no_rows d)
      → ((s : Session) → session_by_id u d.sessions ≡ some s → Q s d)
      → Runs E Q (get_session_for_update u) d
  unfolding get_session_for_update
  get_session_for_update_rule u missing found =
      query_rule _ fault (Answer-one E Q d (session_by_id u d.sessions) _ missing found)

  pub revoke_session_rule :
      (u : Uuid) (reason : Option String)
      → (find_first (revocable u) d.sessions ≡ none → E no_rows d)
      → ((s : Session)
          → find_first (revocable u) d.sessions ≡ some s
          → Q
              (revoked reason d.clock s)
              (with_sessions d (update_where (revocable u) (revoked reason d.clock) d.sessions)))
      → Runs E Q (revoke_session u reason) d
  unfolding revoke_session
  revoke_session_rule u reason missing found =
      query_rule _ fault (Answer-one E Q d (find_first (revocable u) d.sessions) _ missing found)

  pub create_session_rule :
      (p : CreateSessionParams)
      → (session_violation p d.sessions ≡ none
          → Q (new_session p d.clock) (with_sessions d (d.sessions ++ new_session p d.clock ∷ [])))
      → Runs E Q (create_session p) d
  unfolding create_session
  create_session_rule p h =
      query_rule _ fault
        (Answer-unless_fault E Q d (session_violation p d.sessions) _ (λ f. fault f d) h)

  pub rotate_session_refresh_token_rule :
      (u : Uuid) (hash : List ℕ) (refresh_id : Uuid)
      → (session_by_id u d.sessions ≡ none → E no_rows d)
      → ((s : Session)
          → session_by_id u d.sessions ≡ some s
          → Q (rotated hash refresh_id d.clock s) (
              with_sessions d
                (update_where (has_session_id u) (rotated hash refresh_id d.clock) d.sessions)))
      → Runs E Q (rotate_session_refresh_token u hash refresh_id) d
  unfolding rotate_session_refresh_token
  rotate_session_refresh_token_rule u hash refresh_id missing found = query_rule _ fault (
      Answer-if E Q d (is_some (find_first (hash_taken u hash) d.sessions)) _ _ (fault _ d)
        (λ _. Answer-one E Q d (session_by_id u d.sessions) _ missing found))

module _ {E : Error → Db → Type 0} {d : Db} (fault : Faulty E) where
  pub revoke_all_user_sessions_rule :
      {Q : List Session → Db → Type 0} (name : String) (reason : Option String)
      → Q
          (map (revoked reason d.clock) (select (unrevoked_of name) d.sessions))
          (with_sessions d (update_where (unrevoked_of name) (revoked reason d.clock) d.sessions))
      → Runs E Q (revoke_all_user_sessions name reason) d
  unfolding revoke_all_user_sessions
  revoke_all_user_sessions_rule name reason h = query_rule _ fault h

-- A database that differs by audit rows alone.
pub record OnlyAudited (d d' : Db) : Type 0 where
  pub logs : List AuditLog
  pub next : ℕ
  pub db : d' ≡ record d { audit_logs = logs; next_audit_id = next }

pub OnlyAudited-trans : {d d1 d2 : Db} → OnlyAudited d d1 → OnlyAudited d1 d2 → OnlyAudited d d2
OnlyAudited-trans h k = record {
  logs = k.logs;
  next = k.next;
  db = k.db ∙ ap (λ (x : Db). record x { audit_logs = k.logs; next_audit_id = k.next }) h.db;
}

pub create_session_audit_rule :
    {E : Error → Db → Type 0}
    → Faulty E
    → (s : Session) (event actor from_state to_state : String) (d : Db)
    → Runs E (λ _ d'. OnlyAudited d d') (create_session_audit s event actor from_state to_state) d
unfolding create_session_audit
create_session_audit_rule fault s event actor from_state to_state d =
    then_rule
      (create_audit_log_rule fault _ (pure_rule tt (record { logs = _; next = _; db = refl })))

pub audit_each_rule :
    {E : Error → Db → Type 0}
    → Faulty E
    → (ss : List Session) (event : String) (d : Db)
    → Runs E (λ _ d'. OnlyAudited d d') (audit_each ss event) d
unfolding audit_each
audit_each_rule fault [] event d =
    pure_rule tt (record { logs = d.audit_logs; next = d.next_audit_id; db = refl })
audit_each_rule fault (s ∷ ss) event d =
    bind_rule (create_session_audit_rule fault s event "user" "active" "revoked" d) λ _ d1 h.
      weaken (audit_each_rule fault ss event d1) (λ _ _ k. OnlyAudited-trans h k) (λ _ _ e. e)
