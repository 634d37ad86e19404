-- ===== src/Sessions/Spent.antt =====
-- A refresh token that was exchanged, and what the operations on the sessions make of its session.
use mathlib.Core.Bool.{false≢true}
use mathlib.Core.Option
use monierave.Base.{
  ℕ, String, ◌≡◌, ◌≢◌, refl, ◌⊎◌, inl, inr, List, Option, some, true, ◌==◌, ==_iff, sym, ◌∙◌, ap,
  subst, some_eq, Bool-cases,
}
use monierave.Models.{Uuid, Time, Session, Error}
use monierave.Models.Tables.{Db}
use monierave.Store.{World, ok}
use monierave.Store.After.{kept_after, returned}
use monierave.Store.Rules.{Runs, AnyError, weaken}
use monierave.Queries.Ledger.{is_some}
use monierave.Queries.Sessions.{CreateSessionParams, session_by_id, unrevoked_of}
use monierave.Sessions.{RotateRefreshTokenTxParams, rotate_refresh_token_tx}
use monierave.Sessions.Login.{LoggedIn, create_exclusive_session_tx-LoggedIn, logged_out}
use monierave.Sessions.Rotation.{Rotated, RotationError, justified, reused}
use monierave.Sessions.Reuse.{rotate_refresh_token_tx-outcome}
use monierave.Sessions.Revocation.{LoggedOut, revoke_session_tx-LoggedOut}
use monierave.Sessions.Everywhere.{revoke_all_user_sessions_tx-LoggedOutEverywhere}
use monierave.Sessions.Lifetime.{
  SessionStep, login, rotation, logout, logout_everywhere, elsewhere, SessionSteps, none_yet,
  one_more,
}

-- A step stores the token's hash in no session.
abbrev pub AvoidsStep : List ℕ → (d d' : Db) → SessionStep d d' → Type 0
AvoidsStep hash d _ (login p w) = p.refresh_token_hash ≢ hash
AvoidsStep hash d _ (rotation p w) = p.new_token_hash ≢ hash
AvoidsStep hash d _ (logout u device_hash reason actor w) = Unit
AvoidsStep hash d _ (logout_everywhere name reason event w) = Unit
AvoidsStep hash d d' (elsewhere _ e) = Unit

abbrev pub Avoids : List ℕ → (d d' : Db) → SessionSteps d d' → Type 0
Avoids hash d _ none_yet = Unit
Avoids hash d _ (one_more d1 d2 steps step) = Avoids hash d d1 steps × AvoidsStep hash d1 d2 step

module _ (u : Uuid) (hash : List ℕ) where
  abbrev Harmless : Session → Type 0
  Harmless s = (is_some s.revoked_at ≡ true) ⊎ (s.refresh_token_hash ≢ hash)

  -- The session is there, and it is revoked or has another token.
  record Spent (d : Db) : Type 0 where
    session : Session
    row : session_by_id u d.sessions ≡ some session
    harmless : Harmless session

  -- The row after a step, by the row before it.
  Spent-moved :
      (d d' : Db) (f : Session → Session)
      → ((s : Session) → Harmless s → Harmless (f s))
      → session_by_id u d'.sessions ≡ Option.map f (session_by_id u d.sessions)
      → Spent d
      → Spent d'
  Spent-moved d d' f keeps e h = record {
    session = f h.session;
    row = e ∙ ap (Option.map f) h.row;
    harmless = keeps h.session h.harmless;
  }

  Spent-same :
      (d d' : Db) → session_by_id u d'.sessions ≡ session_by_id u d.sessions → Spent d → Spent d'
  Spent-same d d' e h = record { session = h.session; row = e ∙ h.row; harmless = h.harmless }

  Spent-unchanged : (d d' : Db) → d' ≡ d → Spent d → Spent d'
  Spent-unchanged d d' e h = subst Spent (sym e) h

  -- What a step does to this session, and that it leaves the others alone.
  by_id : (v : Uuid) {P : Type 0} → (v ≡ u → P) → (u ≢ v → P) → P
  by_id v same other = elim (Bool-cases (v == u)) [
    | inl hit ↦ same ((==_iff v u).0 hit)
    | inr miss ↦ other (λ e. false≢true (sym miss ∙ (==_iff v u).1 (sym e)))
  ]

  logged_out-Harmless :
      (name : String) (reason : Option String) (now : Time) (s : Session)
      → Harmless s
      → Harmless (logged_out name reason now s)
  logged_out-Harmless name reason now s h = elim (Bool-cases (unrevoked_of name s)) [
    | inl hit ↦ rw hit (inl refl)
    | inr miss ↦ rw miss h
  ]

  login-Spent :
      (p : CreateSessionParams) (d : Db) (r : Session) (d' : Db)
      → p.refresh_token_hash ≢ hash
      → LoggedIn p d r d'
      → Spent d
      → Spent d'
  login-Spent p d r d' fresh k h =
      by_id p.id
        (λ same. record {
          session = r;
          row = ap (λ v. session_by_id v d'.sessions) (sym same) ∙ k.row;
          harmless =
              inr (λ e. fresh (ap (λ (s : Session). s.refresh_token_hash) (sym k.result) ∙ e));
        })
        (λ other.
          Spent-moved d d' _ (logged_out-Harmless p.username _ d.clock) (k.others u other) h)

  rotated-Spent :
      (p : RotateRefreshTokenTxParams) (d : Db) (r : Session) (d' : Db)
      → p.new_token_hash ≢ hash
      → Rotated p d r d'
      → Spent d
      → Spent d'
  rotated-Spent p d r d' fresh k h =
      by_id p.session_id
        (λ same. record {
          session = r;
          row = ap (λ v. session_by_id v d'.sessions) (sym same) ∙ k.row;
          harmless =
              inr (λ e. fresh (ap (λ (s : Session). s.refresh_token_hash) (sym k.result) ∙ e));
        })
        (λ other. Spent-same d d' (k.others u other) h)

  refused-Spent :
      (p : RotateRefreshTokenTxParams) (d : Db) (e : Error) (d' : Db)
      → RotationError p d e d'
      → Spent d
      → Spent d'
  refused-Spent p d _ _ (justified e x) h = h
  refused-Spent p d _ _ (reused d' k) h =
      by_id p.session_id
        (λ same. record {
          session = _;
          row = ap (λ v. session_by_id v d'.sessions) (sym same) ∙ k.row;
          harmless = inl refl;
        })
        (λ other. Spent-same d d' (k.others u other) h)

  logout-Spent :
      (v : Uuid) (device_hash : List ℕ) (d d' : Db)
      → LoggedOut v device_hash d d'
      → Spent d
      → Spent d'
  logout-Spent v device_hash d d' k h =
      by_id v
        (λ same.
          let (s, found, _) = k.kept.each u h.session h.row in
          record {
            session = s;
            row = found;
            harmless = inl (k.gone s (ap (λ x. session_by_id x d'.sessions) same ∙ found));
          })
        (λ other. Spent-same d d' (k.others u other) h)

  SessionStep-Spent :
      (d d' : Db) (step : SessionStep d d') → AvoidsStep hash d d' step → Spent d → Spent d'
  SessionStep-Spent d _ (login p w) fresh h = kept_after Spent w (
      weaken (create_exclusive_session_tx-LoggedIn p d) (λ r d' k. login-Spent p d r d' fresh k h)
        (λ _ d' e. Spent-unchanged d d' e h))
  SessionStep-Spent d _ (rotation p w) fresh h = kept_after Spent w (
      weaken (rotate_refresh_token_tx-outcome p d) (λ r d' k. rotated-Spent p d r d' fresh k h)
        (λ e d' k. refused-Spent p d e d' k h))
  SessionStep-Spent d _ (logout v device_hash reason actor w) fresh h = kept_after Spent w (
      weaken (revoke_session_tx-LoggedOut v device_hash reason actor d)
        (λ _ d' k. logout-Spent v device_hash d d' k h) (λ _ d' e. Spent-unchanged d d' e h))
  SessionStep-Spent d _ (logout_everywhere name reason event w) fresh h = kept_after Spent w (
      weaken (revoke_all_user_sessions_tx-LoggedOutEverywhere name reason event d)
        (λ _ d' k. Spent-moved d d' _ (logged_out-Harmless name _ d.clock) (k.each u) h)
        (λ _ d' e. Spent-unchanged d d' e h))
  SessionStep-Spent d d' (elsewhere _ e) fresh h = Spent-same d d' (ap (session_by_id u) e) h

  SessionSteps-Spent :
      (d d' : Db) (steps : SessionSteps d d') → Avoids hash d d' steps → Spent d → Spent d'
  SessionSteps-Spent d _ none_yet fresh h = h
  SessionSteps-Spent d _ (one_more d1 d2 steps step) (before, fresh) h =
      SessionStep-Spent d1 d2 step fresh (SessionSteps-Spent d d1 steps before h)

  Spent-refused :
      (q : RotateRefreshTokenTxParams) (d : Db)
      → q.session_id ≡ u
      → q.presented_token_hash ≡ hash
      → Spent d
      → Runs AnyError (λ _ _. ⊥) (rotate_refresh_token_tx q) d
  Spent-refused q d same token h =
      weaken (rotate_refresh_token_tx-outcome q d) (λ r d' k. refused r d' k h.harmless)
        (λ _ _ _. tt)
    where
      refused : (r : Session) (d' : Db) → Rotated q d r d' → Harmless h.session → ⊥
      refused r d' k x =
          let here : k.usable.session ≡ h.session =
            some_eq (sym k.usable.found ∙ ap (λ v. session_by_id v d.sessions) same ∙ h.row) in
          elim x [
            | inl gone ↦
                false≢true
                  (sym k.usable.unrevoked ∙ ap (λ (s : Session). is_some s.revoked_at) here ∙ gone)
            | inr other ↦
                other (ap (λ (s : Session). s.refresh_token_hash) (sym here) ∙ k.same_hash ∙ token)
          ]

-- A refresh token that a rotation has exchanged for another is not accepted for its session again:
-- whatever logins, rotations and logouts follow, and however they end, as long as none of them stores
-- the same hash anew, a rotation that presents the token returns an error, whoever presents it.
pub rotate_refresh_token_tx-once :
    (p q : RotateRefreshTokenTxParams) (w w1 : World) (r : Session) (d' : Db)
    → rotate_refresh_token_tx p w ≡ (ok r, w1)
    → p.new_token_hash ≢ p.presented_token_hash
    → (steps : SessionSteps w1.db d') → Avoids p.presented_token_hash w1.db d' steps
    → q.session_id ≡ p.session_id
    → q.presented_token_hash ≡ p.presented_token_hash
    → Runs AnyError (λ _ _. ⊥) (rotate_refresh_token_tx q) d'
rotate_refresh_token_tx-once p q w w1 r d' exchanged fresh steps avoided same_session same_token =
    let k = returned w w1 r exchanged (rotate_refresh_token_tx-outcome p w.db) in
    Spent-refused p.session_id p.presented_token_hash q d' same_session same_token (
      SessionSteps-Spent p.session_id p.presented_token_hash w1.db d' steps avoided (record {
        session = r;
        row = k.row;
        harmless = inr (λ e. fresh (ap (λ (s : Session). s.refresh_token_hash) (sym k.result) ∙ e));
      }))
