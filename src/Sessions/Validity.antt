-- ===== src/Sessions/Validity.antt =====
-- Which sessions are accepted: `ValidateSession`.
use mathlib.Core.Bool.{false≢true}
use monierave.Base.{
  ℕ, ◌≡◌, refl, String, List, none, some, true, false, not, ltb, str_eq, eq_iff, sym, ◌∙◌, subst,
  ap, true_of_not, ◌⊎◌, inl, inr, none_ne_some, some_eq,
}
use monierave.Models.{Uuid, Session, Error}
use monierave.Models.Tables.{Db}
use monierave.Store.Rules.{Runs, then_rule, fail_if_rule, query_here_rule, Answer-one}
use monierave.Store.Atomic.{Infrastructure, of_fault}
use monierave.Queries.Ledger.{is_some}
use monierave.Queries.Sessions.{session_by_id, get_session}
use monierave.Banking.Notification.{time_now_rule}
use monierave.Sessions.{constant_time_hash_equal, validate_session}
use monierave.Sessions.Hashes.{constant_time_hash_equal_iff}

-- A session that its owner may use from its device now.
pub record Usable (u : Uuid) (name : String) (device_hash : List ℕ) (d : Db) : Type 0 where
  pub session : Session
  pub found : session_by_id u d.sessions ≡ some session
  pub owner : session.username ≡ name
  pub unrevoked : is_some session.revoked_at ≡ false
  pub unexpired : ltb d.clock session.expires_at ≡ true
  pub device : session.device_token_hash ≡ device_hash

-- An error that is justified: the session may not be used, or the outside failed.
abbrev pub Justified : Uuid → String → List ℕ → Db → Error → Type 0
Justified u name device_hash d e = (Usable u name device_hash d → ⊥) ⊎ Infrastructure e

module _ (u : Uuid) (name : String) (device_hash : List ℕ) (d : Db) where
  pub missing_unusable : session_by_id u d.sessions ≡ none → Usable u name device_hash d → ⊥
  missing_unusable h x = none_ne_some (sym h ∙ x.found)

  module _ (s : Session) (found : session_by_id u d.sessions ≡ some s) where
    same_session : (x : Usable u name device_hash d) → x.session ≡ s
    same_session x = some_eq (sym x.found ∙ found)

    pub stranger_unusable : not (str_eq s.username name) ≡ true → Usable u name device_hash d → ⊥
    stranger_unusable h x = false≢true (
        sym (
          ap not (
            (eq_iff s.username name).1
              (ap (λ (y : Session). y.username) (sym (same_session x)) ∙ x.owner)))
        ∙ h)

    pub revoked_unusable : is_some s.revoked_at ≡ true → Usable u name device_hash d → ⊥
    revoked_unusable h x = false≢true (
        sym (subst (λ (y : Session). is_some y.revoked_at ≡ false) (same_session x) x.unrevoked)
        ∙ h)

    pub expired_unusable : not (ltb d.clock s.expires_at) ≡ true → Usable u name device_hash d → ⊥
    expired_unusable h x = false≢true (
        sym (
          ap not
            (subst (λ (y : Session). ltb d.clock y.expires_at ≡ true) (same_session x) x.unexpired))
        ∙ h)

    pub device_unusable :
        not (constant_time_hash_equal s.device_token_hash device_hash) ≡ true
        → Usable u name device_hash d
        → ⊥
    device_unusable h x = false≢true (
        sym (
          ap not (
            (constant_time_hash_equal_iff s.device_token_hash device_hash).1
              (ap (λ (y : Session). y.device_token_hash) (sym (same_session x)) ∙ x.device)))
        ∙ h)

    pub Usable-of_guards :
        not (str_eq s.username name) ≡ false
        → is_some s.revoked_at ≡ false
        → not (ltb d.clock s.expires_at) ≡ false
        → not (constant_time_hash_equal s.device_token_hash device_hash) ≡ false
        → Usable u name device_hash d
    Usable-of_guards own unrevoked deadline device = record {
      session = s;
      found = found;
      owner = (eq_iff s.username name).0 (true_of_not own);
      unrevoked = unrevoked;
      unexpired = true_of_not deadline;
      device =
          (constant_time_hash_equal_iff s.device_token_hash device_hash).0 (true_of_not device);
    }

-- A session is accepted exactly where there is one of that id, owner and device which was not revoked and
-- has not expired: an acceptance says that there is, and an error that there is none or that the outside
-- failed. The database is as it was.
pub validate_session-Usable :
    (u : Uuid) (name : String) (device_hash : List ℕ) (d : Db)
    → Runs
        (λ e d'. (d' ≡ d) × Justified u name device_hash d e)
        (λ _ d'. (d' ≡ d) × Usable u name device_hash d)
        (validate_session u name device_hash)
        d
unfolding validate_session get_session
validate_session-Usable u name device_hash d = then_rule (
    query_here_rule _ (λ f. (refl, inr (of_fault f)))
      (Answer-one (λ e d'. (d' ≡ d) × Justified u name device_hash d e) _ d
        (session_by_id u d.sessions) _
        (λ missing. (refl, inl (missing_unusable u name device_hash d missing)))
        λ s found. then_rule (
          fail_if_rule _ (λ h. (refl, inl (stranger_unusable u name device_hash d s found h)))
            λ own. then_rule (
              fail_if_rule _ (λ h. (refl, inl (revoked_unusable u name device_hash d s found h)))
                λ unrevoked. then_rule (
                  time_now_rule (
                    then_rule (
                      fail_if_rule _
                        (λ h. (refl, inl (expired_unusable u name device_hash d s found h)))
                        λ deadline.
                          fail_if_rule _
                            (λ h. (refl, inl (device_unusable u name device_hash d s found h)))
                            λ device. (
                              refl,
                              Usable-of_guards u name device_hash d s found own unrevoked deadline
                                  device,
                            ))))))))
