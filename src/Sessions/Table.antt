-- ===== src/Sessions/Table.antt =====
-- The sessions after an update of the row of one id.
use mathlib.Core.Option
use monierave.Base.{
  ◌≡◌, refl, ◌≢◌, List, Option, none, some, Bool, true, sym, ◌∙◌, ap, ==_iff, update_where,
  find_first_sound, find_first-update_where, Bool-cases, inl, inr, if◌then◌else◌,
}
use monierave.Models.{Uuid, Session}
use monierave.Queries.Sessions.{has_session_id, session_by_id}

-- A table in which the row of one id is changed.
module _ (u : Uuid) (p : Session → Bool) (f : Session → Session) (rows : List Session)
    (only_it : (s : Session) → p s ≡ true → s.id ≡ u)
    (same_id : (s : Session) → (f s).id ≡ s.id) where
  changed : Session → Session
  changed s = if p s then f s else s

  lookup :
      (v : Uuid)
      → session_by_id v (update_where p f rows) ≡ Option.map changed (session_by_id v rows)
  unfolding changed
  lookup v = find_first-update_where (has_session_id v) p f rows (λ s. rw (same_id s) refl)

  pub row_changed :
      (s : Session)
      → session_by_id u rows ≡ some s
      → p s ≡ true
      → session_by_id u (update_where p f rows) ≡ some (f s)
  unfolding changed
  row_changed s e hit = lookup u ∙ ap (Option.map changed) e ∙ rw hit refl

  pub row_after :
      (v : Uuid) (s : Session)
      → session_by_id v rows ≡ some s
      → session_by_id v (update_where p f rows) ≡ some (if p s then f s else s)
  unfolding changed
  row_after v s e = lookup v ∙ ap (Option.map changed) e

  pub others_same :
      (v : Uuid) → v ≢ u → session_by_id v (update_where p f rows) ≡ session_by_id v rows
  unfolding changed
  others_same v other = lookup v ∙ at (session_by_id v rows) refl
    where
      at : (o : Option Session) → session_by_id v rows ≡ o → Option.map changed o ≡ o
      at none e = refl
      at (some s) e = elim (Bool-cases (p s)) [
        | inl hit ↦ absurd (
            other (
              sym ((==_iff s.id v).0 (find_first_sound (has_session_id v) rows s e))
              ∙ only_it s hit))
        | inr miss ↦ rw miss refl
      ]
