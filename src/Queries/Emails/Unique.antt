-- ===== src/Queries/Emails/Unique.antt =====
-- The primary key of `email_jobs`: what it says of the row that a query finds.
use mathlib.Core.Option
use monierave.Base.{
  ℕ, ◌≤◌, ◌≡◌, refl, List, [], ◌∷◌, Option, none, some, Bool, true, ◌==◌, ==_iff, find_first, ◌≢◌,
  ◌∙◌, find_first_sound, find_first-update_where, update_where, count_where,
  count_where-update_where, Bool-cases, inl, inr, if◌then◌else◌, some_eq, none_ne_some, arith,
  subst, sym, ap,
}
use monierave.Models.{Uuid, EmailJob}
use monierave.Queries.Outbox.{job_by_id}
use monierave.Queries.Emails.{has_job_id}

-- No two jobs of one id.
abbrev pub UniqueJobs : List EmailJob → Type 0
UniqueJobs rows = (u : Uuid) → count_where (has_job_id u) rows ≤ 1

pub UniqueJobs-update :
    (p : EmailJob → Bool) (f : EmailJob → EmailJob) (rows : List EmailJob)
    → ((j : EmailJob) → (f j).id ≡ j.id)
    → UniqueJobs rows
    → UniqueJobs (update_where p f rows)
UniqueJobs-update p f rows same h u =
    subst (λ n. n ≤ 1)
      (sym
        (count_where-update_where (has_job_id u) p f rows (λ j. ap (λ (i : ℕ). i == u) (same j))))
      (h u)

module _ {A : Type 0} (p q : A → Bool) where
  counted : (xs : List A) (a : A) → find_first q xs ≡ some a → 1 ≤ count_where q xs
  unfolding find_first count_where
  counted [] a e = absurd (none_ne_some e)
  counted (x ∷ xs) a e = ground (arith, counted xs a)

  found_of_unique :
      (xs : List A) (a : A)
      → count_where q xs ≤ 1
      → find_first p xs ≡ some a
      → q a ≡ true
      → find_first q xs ≡ some a
  unfolding find_first count_where
  found_of_unique [] a h e k = absurd (none_ne_some e)
  found_of_unique (x ∷ xs) a h e k = ground (arith, found_of_unique xs a, counted xs a)

-- A row that another search finds is the row of its id.
pub job_by_id_found :
    (p : EmailJob → Bool) (rows : List EmailJob) (j : EmailJob)
    → UniqueJobs rows
    → find_first p rows ≡ some j
    → job_by_id j.id rows ≡ some j
job_by_id_found p rows j h e =
    found_of_unique p (has_job_id j.id) rows j (h j.id) e ((==_iff j.id j.id).1 refl)

-- An update of a job by its id: it changes that job's row and no other.
pub record JobUpdated (u : Uuid) (f : EmailJob → EmailJob) (k : EmailJob)
    (rows rows' : List EmailJob) : Type 0 where
  pub row : job_by_id u rows' ≡ some (f k)
  pub unique : UniqueJobs rows'
  pub others : (v : Uuid) → v ≢ u → job_by_id v rows' ≡ job_by_id v rows

module _ (u : Uuid) (p : EmailJob → Bool) (f : EmailJob → EmailJob)
    (narrow : (x : EmailJob) → p x ≡ true → (x.id == u) ≡ true)
    (keeps : (x : EmailJob) → (f x).id ≡ x.id) (rows : List EmailJob)
    (unique : UniqueJobs rows) where
  same_id : (v : Uuid) (x : EmailJob) → has_job_id v (f x) ≡ has_job_id v x
  same_id v x = ap (λ (i : ℕ). i == v) (keeps x)

  -- The row that the update finds is the job's.
  pub the_row :
      (k m : EmailJob)
      → job_by_id u rows ≡ some k
      → find_first p rows ≡ some m
      → (m ≡ k) × (p k ≡ true)
  the_row k m here found =
      let hit = find_first_sound p rows m found in
      let same : m ≡ k = some_eq (
        sym (job_by_id_found p rows m unique found)
        ∙ ap (λ (v : Uuid). job_by_id v rows) ((==_iff m.id u).0 (narrow m hit))
        ∙ here) in
      (same, subst (λ x. p x ≡ true) same hit)

  other_row :
      (v : Uuid)
      → v ≢ u
      → (o : Option EmailJob) → job_by_id v rows ≡ o
      → Option.map (λ x. if p x then f x else x) o ≡ o
  other_row v other none e = refl
  other_row v other (some x) e = elim (Bool-cases (p x)) [
    | inl hit ↦ absurd (
        other (
          sym ((==_iff x.id v).0 (find_first_sound (has_job_id v) rows x e))
          ∙ (==_iff x.id u).0 (narrow x hit)))
    | inr miss ↦ rw miss refl
  ]

  pub update-JobUpdated :
      (k m : EmailJob)
      → job_by_id u rows ≡ some k
      → find_first p rows ≡ some m
      → JobUpdated u f k rows (update_where p f rows)
  update-JobUpdated k m here found = record {
    row =
        find_first-update_where (has_job_id u) p f rows (same_id u)
        ∙ ap (Option.map (λ x. if p x then f x else x)) here
        ∙ rw (the_row k m here found).1 refl;
    unique = UniqueJobs-update p f rows keeps unique;
    others = λ v other.
        find_first-update_where (has_job_id v) p f rows (same_id v)
        ∙ other_row v other (job_by_id v rows) refl;
  }
