-- ===== src/Sessions/Rotation.antt =====
-- The rotation of refresh tokens and the detection of a token that is used again:
-- `RotateRefreshTokenTx`.
use mathlib.Core.Bool.{false≢true}
use monierave.Base.{
  ◌≡◌, refl, ◌≢◌, Option, none, some, true, false, not, ◌==◌, ==_iff, sym, ◌∙◌, subst, ap,
  true_of_not, or_false, ◌⊎◌, inl, inr, none_ne_some, some_eq, find_first, find_first_narrow,
  Bool-cases, if◌then◌else◌, find_first_sound, and_true,
}
use monierave.Models.{Uuid, Session, Error, refresh_token_reuse}
use monierave.Models.Tables.{Db}
use monierave.Store.Rules.{Runs, pure_rule, then_rule, bind_rule, same_start}
use monierave.Store.Atomic.{of_fault}
use monierave.Queries.Sessions.{
  has_session_id, session_by_id, is_unrevoked, revocable, revoked, rotated,
}
use monierave.Sessions.{
  RotateRefreshTokenTxParams, constant_time_hash_equal, token_differs, revoke_reused,
  rotate_matching,
}
use monierave.Sessions.Hashes.{constant_time_hash_equal_iff}
use monierave.Sessions.Kept.{SessionsKept, SessionsKept-revoked, SessionsKept-rotated}
use monierave.Sessions.Rules.{
  revoke_session_rule, rotate_session_refresh_token_rule, create_session_audit_rule,
}
use monierave.Sessions.Table.{row_changed, others_same}
use monierave.Sessions.Validity.{Usable, Justified}

-- The session of the request, as the presented user and device may use it now.
abbrev pub UsableFor : RotateRefreshTokenTxParams → Db → Type 0
UsableFor p d = Usable p.session_id p.username p.presented_device_hash d

-- The stored token was the presented one, and the new one took its place; no other session differs.
pub record Rotated (p : RotateRefreshTokenTxParams) (d : Db) (r : Session) (d' : Db) : Type 0 where
  pub usable : UsableFor p d
  pub same_hash : usable.session.refresh_token_hash ≡ p.presented_token_hash
  pub same_id : usable.session.refresh_token_id ≡ p.presented_refresh_id
  pub result : r ≡ rotated p.new_token_hash p.new_refresh_id d.clock usable.session
  pub row : session_by_id p.session_id d'.sessions ≡ some r
  pub others :
      (u : Uuid) → u ≢ p.session_id → session_by_id u d'.sessions ≡ session_by_id u d.sessions
  pub same_books : d'.books ≡ d.books
  pub kept : SessionsKept d.sessions d'.sessions

-- The session could be used, but with another token: it is revoked now; no other session differs.
pub record Detected (p : RotateRefreshTokenTxParams) (d d' : Db) : Type 0 where
  pub usable : UsableFor p d
  pub differs :
      (usable.session.refresh_token_hash ≢ p.presented_token_hash)
      ⊎ (usable.session.refresh_token_id ≢ p.presented_refresh_id)
  pub row :
      session_by_id p.session_id d'.sessions
      ≡ some (revoked (some "refresh_token_reuse") d.clock usable.session)
  pub others :
      (u : Uuid) → u ≢ p.session_id → session_by_id u d'.sessions ≡ session_by_id u d.sessions
  pub same_books : d'.books ≡ d.books
  pub kept : SessionsKept d.sessions d'.sessions

pub data RotationError (p : RotateRefreshTokenTxParams) (d : Db) : Error → Db → Type 0 where
  justified :
      (e : Error)
      → Justified p.session_id p.username p.presented_device_hash d e
      → RotationError p d e d
  reused : (d' : Db) → Detected p d d' → RotationError p d refresh_token_reuse d'

-- What the body of the transaction returns: the session that was rotated, or none.
abbrev pub Rotation : RotateRefreshTokenTxParams → Db → Option Session → Db → Type 0
Rotation p d none d' = Detected p d d'
Rotation p d (some r) d' = Rotated p d r d'

module _ (p : RotateRefreshTokenTxParams) (d : Db) (x : UsableFor p d) where
  abbrev pub Fails : Error → Db → Type 0
  Fails e d' = Justified p.session_id p.username p.presented_device_hash d e

  found_id : x.session.id ≡ p.session_id
  found_id =
      (==_iff x.session.id p.session_id).0
        (find_first_sound (has_session_id p.session_id) d.sessions x.session x.found)

  still_there : find_first (revocable p.session_id) d.sessions ≡ none → ⊥
  still_there h = none_ne_some (
      sym h
      ∙ find_first_narrow (has_session_id p.session_id) is_unrevoked d.sessions x.session x.found
          (ap not x.unrevoked))

  revoke_reused-Detected :
      (s : Session)
      → ((x.session.refresh_token_hash ≢ p.presented_token_hash)
          ⊎ (x.session.refresh_token_id ≢ p.presented_refresh_id))
      → Runs Fails (Rotation p d) (revoke_reused p s) d
  unfolding revoke_reused
  revoke_reused-Detected s differs = then_rule (
      revoke_session_rule (λ f _. inr (of_fault f)) _ _ (λ missing. absurd (still_there missing))
        λ s1 found1.
          bind_rule (create_session_audit_rule (λ f _. inr (of_fault f)) _ _ _ _ _ _) λ _ d1 h1.
            same_start h1.db (
              pure_rule none (record {
                usable = x;
                differs = differs;
                row =
                    row_changed p.session_id (revocable p.session_id) _ d.sessions only_it
                      (λ _. refl) x.session x.found
                      (rw ((==_iff x.session.id p.session_id).1 found_id, x.unrevoked) refl);
                others =
                    others_same p.session_id (revocable p.session_id) _ d.sessions only_it
                      (λ _. refl);
                same_books = refl;
                kept = SessionsKept-revoked (revocable p.session_id) _ d.clock d.sessions;
              })))
    where
      only_it : (s : Session) → revocable p.session_id s ≡ true → s.id ≡ p.session_id
      only_it s h = (==_iff s.id p.session_id).0 (and_true {a = s.id == p.session_id} h).0

  rotate_matching-Rotated :
      x.session.refresh_token_hash ≡ p.presented_token_hash
      → x.session.refresh_token_id ≡ p.presented_refresh_id
      → Runs Fails (Rotation p d) (rotate_matching p) d
  unfolding rotate_matching
  rotate_matching-Rotated same_hash same_id = then_rule (
      rotate_session_refresh_token_rule (λ f _. inr (of_fault f)) _ _ _
        (λ missing. absurd (none_ne_some (sym missing ∙ x.found)))
        λ s1 found1.
          bind_rule (create_session_audit_rule (λ f _. inr (of_fault f)) _ _ _ _ _ _) λ _ d1 h1.
            same_start h1.db (
              pure_rule _ (record {
                usable = x;
                same_hash = same_hash;
                same_id = same_id;
                result =
                    ap (rotated p.new_token_hash p.new_refresh_id d.clock)
                      (some_eq (sym found1 ∙ x.found));
                row =
                    row_changed p.session_id (has_session_id p.session_id) _ d.sessions only_it
                      (λ _. refl) s1 found1
                      (find_first_sound (has_session_id p.session_id) d.sessions s1 found1);
                others =
                    others_same p.session_id (has_session_id p.session_id) _ d.sessions only_it
                      (λ _. refl);
                same_books = refl;
                kept =
                    SessionsKept-rotated (has_session_id p.session_id) p.new_token_hash
                      p.new_refresh_id d.clock d.sessions;
              })))
    where
      only_it : (s : Session) → has_session_id p.session_id s ≡ true → s.id ≡ p.session_id
      only_it s h = (==_iff s.id p.session_id).0 h

  token_cases :
      (s : Session)
      → (token_differs p s ≡ true
          → (s.refresh_token_hash ≢ p.presented_token_hash)
            ⊎ (s.refresh_token_id ≢ p.presented_refresh_id))
        × (token_differs p s ≡ false
            → (s.refresh_token_hash ≡ p.presented_token_hash)
              × (s.refresh_token_id ≡ p.presented_refresh_id))
  token_cases s = (
    λ h. elim (Bool-cases (constant_time_hash_equal s.refresh_token_hash p.presented_token_hash)) [
      | inl same ↦
          inr
            λ e. false≢true (rw (same, (==_iff s.refresh_token_id p.presented_refresh_id).1 e) at h)
      | inr other ↦ inl λ e. false≢true (sym other ∙ (constant_time_hash_equal_iff _ _).1 e)
    ],
    λ h. (
      (constant_time_hash_equal_iff s.refresh_token_hash p.presented_token_hash).0 (
          true_of_not
            (or_false (not (constant_time_hash_equal s.refresh_token_hash p.presented_token_hash)) _
              h).0),
      (==_iff s.refresh_token_id p.presented_refresh_id).0 (
          true_of_not
            (or_false (not (constant_time_hash_equal s.refresh_token_hash p.presented_token_hash)) _
              h).1),
    ),
  )

  Decided : Session → Type 0
  Decided s =
      Runs Fails (Rotation p d) (if token_differs p s then revoke_reused p s else rotate_matching p)
        d

  Decided-here : Decided x.session
  unfolding Decided
  Decided-here = elim (Bool-cases (token_differs p x.session)) [
    | inl differs ↦
        rw differs (revoke_reused-Detected x.session ((token_cases x.session).0 differs))
    | inr same ↦
        let (hash, id) = (token_cases x.session).1 same in rw same (rotate_matching-Rotated hash id)
  ]

  pub Rotation-decided :
      (s : Session)
      → session_by_id p.session_id d.sessions ≡ some s
      → Runs Fails
          (Rotation p d)
          (if token_differs p s then revoke_reused p s else rotate_matching p)
          d
  unfolding Decided
  Rotation-decided s found = subst Decided (some_eq (sym x.found ∙ found)) Decided-here
