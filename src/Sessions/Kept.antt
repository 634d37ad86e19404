-- ===== src/Sessions/Kept.antt =====
-- What every update of the sessions keeps: a session keeps its owner, its device and its deadline, a
-- revoked one stays revoked, and no user gets a second session that is not revoked.
use mathlib.Core.Bool.{false≢true}
use mathlib.Core.Option
use monierave.Base.{
  ℕ, ◌≤◌, ◌≡◌, refl, String, List, [], ◌∷◌, ◌++◌, Option, none, some, Bool, true, false, str_eq,
  eq_iff, if◌then◌else◌, ap, sym, ◌∙◌, subst, arith, find_first, update_where, find_first-append,
  find_first-update_where, count_where, count_where-append, count_where-none, Bool-cases, inl, inr,
  or_else,
}
use monierave.Models.{Uuid, Time, Session}
use monierave.Queries.Ledger.{is_some}
use monierave.Queries.Sessions.{
  has_session_id, session_by_id, CreateSessionParams, new_session, unrevoked_of, session_violation,
  revoked, rotated,
}

-- One session before and after.
pub record SameSession (s s' : Session) : Type 0 where
  pub owner : s'.username ≡ s.username
  pub device : s'.device_token_hash ≡ s.device_token_hash
  pub deadline : s'.expires_at ≡ s.expires_at
  pub stays_revoked : is_some s.revoked_at ≡ true → s'.revoked_at ≡ s.revoked_at

abbrev pub OneActive : List Session → Type 0
OneActive rows = (name : String) → count_where (unrevoked_of name) rows ≤ 1

pub record SessionsKept (rows rows' : List Session) : Type 0 where
  pub each :
      (u : Uuid) (s : Session)
      → session_by_id u rows ≡ some s
      → (s' : Session) × (session_by_id u rows' ≡ some s') × SameSession s s'
  pub one_active : OneActive rows → OneActive rows'

pub SameSession-refl : (s : Session) → SameSession s s
SameSession-refl s = record {
  owner = refl;
  device = refl;
  deadline = refl;
  stays_revoked = λ _. refl;
}

SameSession-trans : {s t v : Session} → SameSession s t → SameSession t v → SameSession s v
SameSession-trans h k = record {
  owner = k.owner ∙ h.owner;
  device = k.device ∙ h.device;
  deadline = k.deadline ∙ h.deadline;
  stays_revoked = λ r. k.stays_revoked (ap is_some (h.stays_revoked r) ∙ r) ∙ h.stays_revoked r;
}

pub SessionsKept-refl : (rows : List Session) → SessionsKept rows rows
SessionsKept-refl rows = record { each = λ u s e. (s, e, SameSession-refl s); one_active = λ h. h }

pub SessionsKept-trans :
    {rows rows' rows'' : List Session}
    → SessionsKept rows rows'
    → SessionsKept rows' rows''
    → SessionsKept rows rows''
SessionsKept-trans h k = record {
  each = λ u s e.
      let (t, et, st) = h.each u s e in
      let (v, ev, tv) = k.each u t et in (v, ev, SameSession-trans st tv);
  one_active = λ x. k.one_active (h.one_active x);
}

count_where_shrinks :
    {A : Type 0} (q p : A → Bool) (f : A → A) (rows : List A)
    → ((x : A) → q (f x) ≡ true → q x ≡ true)
    → count_where q (update_where p f rows) ≤ count_where q rows
unfolding count_where update_where
count_where_shrinks q p f [] h = omega arith
count_where_shrinks q p f (x ∷ xs) h = ground (arith, h x, count_where_shrinks q p f xs h)

-- An update of some rows that keeps each one's id and makes none active.
module _ (p : Session → Bool) (f : Session → Session) (same_id : (s : Session) → (f s).id ≡ s.id)
    (same : (s : Session) → SameSession s (f s))
    (no_new : (s : Session) (name : String)
      → unrevoked_of name (f s) ≡ true
      → unrevoked_of name s ≡ true) where
  changed_row : (s : Session) → SameSession s (if p s then f s else s)
  changed_row s = elim (Bool-cases (p s)) [
    | inl hit ↦ rw hit (same s)
    | inr miss ↦ rw miss (SameSession-refl s)
  ]

  pub SessionsKept-update : (rows : List Session) → SessionsKept rows (update_where p f rows)
  SessionsKept-update rows = record {
    each = λ u s e. (
      if p s then f s else s,
      find_first-update_where (has_session_id u) p f rows (λ x. rw (same_id x) refl)
          ∙ ap (λ o. Option.map (λ x. if p x then f x else x) o) e,
      changed_row s,
    );
    one_active = λ h name.
        let fewer = count_where_shrinks (unrevoked_of name) p f rows (λ x. no_new x name) in
        let few = h name in omega (arith, fewer, few);
  }

revoked_inactive :
    (reason : Option String) (now : Time) (s : Session) (name : String)
    → unrevoked_of name (revoked reason now s) ≡ false
revoked_inactive reason now s name = ground arith

revoked_same :
    (reason : Option String) (now : Time) (s : Session) → SameSession s (revoked reason now s)
revoked_same reason now s = record {
  owner = refl;
  device = refl;
  deadline = refl;
  stays_revoked = at s.revoked_at;
}
  where
    at : (o : Option Time) → is_some o ≡ true → some (elim o [ none ↦ now | some t ↦ t ]) ≡ o
    at none h = absurd (false≢true h)
    at (some t) h = refl

pub SessionsKept-revoked :
    (p : Session → Bool) (reason : Option String) (now : Time) (rows : List Session)
    → SessionsKept rows (update_where p (revoked reason now) rows)
SessionsKept-revoked p reason now =
    SessionsKept-update p (revoked reason now) (λ s. refl) (revoked_same reason now)
      (λ s name h. absurd (false≢true (sym (revoked_inactive reason now s name) ∙ h)))

pub SessionsKept-rotated :
    (p : Session → Bool) (hash : List ℕ) (refresh_id : Uuid) (now : Time) (rows : List Session)
    → SessionsKept rows (update_where p (rotated hash refresh_id now) rows)
SessionsKept-rotated p hash refresh_id now =
    SessionsKept-update p (rotated hash refresh_id now) (λ s. refl)
      (λ s. record { owner = refl; device = refl; deadline = refl; stays_revoked = λ _. refl })
      (λ s name h. h)

-- What the unique indexes say of a row that they let in.
pub record Admitted (p : CreateSessionParams) (rows : List Session) : Type 0 where
  pub new_id : session_by_id p.id rows ≡ none
  pub none_active : find_first (unrevoked_of p.username) rows ≡ none

pub Admitted-of_violation :
    (p : CreateSessionParams) (rows : List Session)
    → session_violation p rows ≡ none
    → Admitted p rows
unfolding session_violation
Admitted-of_violation p rows h = record { new_id = ground arith; none_active = ground arith }

pub SessionsKept-created :
    (p : CreateSessionParams) (now : Time) (rows : List Session)
    → Admitted p rows
    → SessionsKept rows (rows ++ new_session p now ∷ [])
unfolding find_first count_where
SessionsKept-created p now rows a = record {
  each = λ u s e. (
    s,
    find_first-append (has_session_id u) rows _
        ∙ ap (λ o. or_else o (find_first (has_session_id u) (new_session p now ∷ []))) e,
    SameSession-refl s,
  );
  one_active = λ h name.
      subst (λ n. n ≤ 1) (sym (count_where-append (unrevoked_of name) rows _))
        (elim (Bool-cases (str_eq p.username name)) [
          | inl own ↦
              let none_left = count_where-none (unrevoked_of name) rows (
                subst (λ (n : String). find_first (unrevoked_of n) rows ≡ none)
                  ((eq_iff p.username name).0 own) a.none_active) in
              rw (own, none_left) (omega arith)
          | inr other ↦ let few = h name in rw other (omega (arith, few))
        ]);
}
