-- ===== src/Emails/Reports/Bounded.antt =====
-- Reports that come twice, late or out of order: how often they can change the state of a job.
use mathlib.Core.Option
use monierave.Base.{
  ℕ, ◌+◌, ◌≤◌, ◌<◌, ◌≡◌, refl, ◌⊎◌, inl, inr, String, List, [], ◌∷◌, ◌++◌, Option, none, some, Bool,
  true, false, ◌&&◌, not, ltb, is_empty, ==_iff, str_eq, eq_iff, Bool-cases, and_true,
  if◌then◌else◌, sym, ◌∙◌, ap, subst, arith, find_first, find_first_sound, find_first-update_where,
  update_where, some_eq, LetterCase,
}
use monierave.Models.{Uuid, Time, EmailJob, EmailDeliveryEvent}
use monierave.Models.Tables.{Db}
use monierave.Store.{World}
use monierave.Store.Rules.{Runs, weaken}
use monierave.Store.After.{after, kept_after}
use monierave.Queries.Ledger.{is_some}
use monierave.Queries.Outbox.{job_by_id}
use monierave.Queries.Emails.{
  has_job_id, has_webhook_id, UpdateEmailJobDeliveryParams, takes_report, reported,
}
use monierave.Queries.Emails.Unique.{UniqueJobs, UniqueJobs-update, job_by_id_found}
use monierave.Emails.Reports.{
  ProcessEmailDeliveryEventParams, ProcessEmailDeliveryEventResult,
  can_apply_email_delivery_transition, is_applicable, allowed_transition, delivery_params,
  process_email_delivery_event_tx,
}
use monierave.Emails.Reports.Ranks.{rank, rank-le, allowed_transition-rank}
use monierave.Emails.Reports.Outcome.{
  Addressed, by_message, by_id, Processed, seen_before, noted, applied, known,
  process_email_delivery_event_tx-Processed,
}

known_after :
    (w : String) (rows : List EmailDeliveryEvent) (e : EmailDeliveryEvent)
    → str_eq e.webhook_id w ≡ true
    → is_some (find_first (has_webhook_id w) (rows ++ e ∷ [])) ≡ true
unfolding find_first
known_after w [] e h = rw h refl
known_after w (x ∷ rows) e h = ground (arith, known_after w rows e h)

module _ (lc : LetterCase) (p : ProcessEmailDeliveryEventParams) where
  own_id : str_eq p.webhook_id p.webhook_id ≡ true
  own_id = (eq_iff p.webhook_id p.webhook_id).1 refl

  Processed-known :
      (d : Db) (r : ProcessEmailDeliveryEventResult) (d' : Db)
      → Processed lc p d r d'
      → known lc p d' ≡ true
  Processed-known d r d' (seen_before _ h e) = h
  Processed-known d r d' (noted _ job h why e) =
      known_after p.webhook_id d.email_delivery_events _ own_id
  Processed-known d r d' (applied _ _ job row h a ok f e jobs events user books) =
      subst
        (λ (rows : List EmailDeliveryEvent).
          is_some (find_first (has_webhook_id p.webhook_id) rows) ≡ true)
        (sym events) (known_after p.webhook_id d.email_delivery_events _ own_id)

  Processed-again :
      (d : Db) (r : ProcessEmailDeliveryEventResult) (d' : Db)
      → known lc p d ≡ true
      → Processed lc p d r d'
      → (d' ≡ d) × (r.duplicate ≡ true)
  Processed-again d r d' h (seen_before _ k e) = (refl, e)
  Processed-again d r d' h (noted _ job k why e) = cc
  Processed-again d r d' h (applied _ _ job row k a ok f e jobs events user books) = cc

  -- Where a report has been processed, another delivery of it is told to be a duplicate and changes
  -- nothing; where either of the two fails, that one leaves the whole database as it was.
  pub process_email_delivery_event_tx-repeated :
      (d : Db)
      → Runs
          (λ _ d'. d' ≡ d)
          (λ _ d1.
            Runs
              (λ _ d2. d2 ≡ d1)
              (λ r d2. (d2 ≡ d1) × (r.duplicate ≡ true))
              (process_email_delivery_event_tx lc p)
              d1)
          (process_email_delivery_event_tx lc p)
          d
  process_email_delivery_event_tx-repeated d =
      weaken (process_email_delivery_event_tx-Processed lc p d)
        (λ r d1 h.
          weaken (process_email_delivery_event_tx-Processed lc p d1)
            (λ r2 d2 k. Processed-again d1 r2 d2 (Processed-known d r d1 h) k) (λ _ _ e. e))
        (λ _ _ e. e)

-- The delivery status of a job; any text where there is no such job.
abbrev status_in : Option EmailJob → String
status_in none = ""
status_in (some j) = j.delivery_status

abbrev pub status_of : Uuid → Db → String
status_of u d = status_in (job_by_id u d.email_jobs)

-- The status is the same, or further on its way.
abbrev Progress : String → String → Type 0
Progress s s' = (s' ≡ s) ⊎ (rank s < rank s')

last_true : (a b c : Bool) → (a && b && c) ≡ true → c ≡ true
last_true a b c h = ground arith

can_apply-allowed :
    (c n : String) (at : Option Time) (t : Time)
    → can_apply_email_delivery_transition c n at t ≡ true
    → allowed_transition c n ≡ true
unfolding can_apply_email_delivery_transition
can_apply-allowed c n none t h = last_true (not (str_eq c n)) true _ h
can_apply-allowed c n (some s) t h = last_true (not (str_eq c n)) (not (not (ltb s t))) _ h

applicable-allowed :
    (p : ProcessEmailDeliveryEventParams) (job : EmailJob)
    → is_applicable p job ≡ true
    → allowed_transition job.delivery_status p.delivery_status ≡ true
applicable-allowed p job h =
    can_apply-allowed job.delivery_status p.delivery_status job.delivery_event_at p.occurred_at
      (and_true {a = not (is_empty p.delivery_status)} h).1

Addressed-row :
    (lc : LetterCase) (p : ProcessEmailDeliveryEventParams) (d : Db) (job : EmailJob)
    → UniqueJobs d.email_jobs
    → Addressed lc p d job
    → job_by_id job.id d.email_jobs ≡ some job
Addressed-row lc p d job h (by_message e) = job_by_id_found _ d.email_jobs job h e
Addressed-row lc p d job h (by_id u named e own) =
    job_by_id_found (has_job_id u) d.email_jobs job h e

module _ (q : UpdateEmailJobDeliveryParams) (now : Time) (rows : List EmailJob) (job : EmailJob)
    (named : q.id ≡ job.id) (there : job_by_id job.id rows ≡ some job)
    (leads : rank job.delivery_status < rank q.delivery_status) where
  row-Progress :
      (u : Uuid) (x : EmailJob)
      → job_by_id u rows ≡ some x
      → (b : Bool) → takes_report q x ≡ b
      → Progress x.delivery_status (if b then reported q now x else x).delivery_status
  row-Progress u x e false t = inl refl
  row-Progress u x e true t =
      let at_u = (==_iff x.id u).0 (find_first_sound (has_job_id u) rows x e) in
      let at_job = (==_iff x.id q.id).0 (and_true t).0 ∙ named in
      let both : some x ≡ some job =
        sym e ∙ ap (λ (v : Uuid). job_by_id v rows) (sym at_u ∙ at_job) ∙ there in
      inr (
        subst (λ (y : EmailJob). rank y.delivery_status < rank q.delivery_status)
          (sym (some_eq both)) leads)

  status-Progress :
      (u : Uuid)
      → Progress
          (status_in (job_by_id u rows))
          (status_in (job_by_id u (update_where (takes_report q) (reported q now) rows)))
  status-Progress u =
      subst (λ o. Progress (status_in (job_by_id u rows)) (status_in o))
        (sym (
          find_first-update_where (has_job_id u) (takes_report q) (reported q now) rows
            (λ x. refl)))
        (of (job_by_id u rows) refl)
    where
      of :
          (o : Option EmailJob)
          → job_by_id u rows ≡ o
          → Progress
              (status_in o)
              (status_in (Option.map (λ x. if takes_report q x then reported q now x else x) o))
      of none e = inl refl
      of (some x) e = row-Progress u x e (takes_report q x) refl

-- What a call leaves of the primary key and of the way of each status.
abbrev Advanced : Uuid → Db → Db → Type 0
Advanced u d d' = UniqueJobs d'.email_jobs × Progress (status_of u d) (status_of u d')

module _ (lc : LetterCase) where
  Processed-Advanced :
      (p : ProcessEmailDeliveryEventParams) (u : Uuid) (d : Db)
      (r : ProcessEmailDeliveryEventResult) (d' : Db)
      → UniqueJobs d.email_jobs
      → Processed lc p d r d'
      → Advanced u d d'
  Processed-Advanced p u d r d' h (seen_before _ k e) = (h, inl refl)
  Processed-Advanced p u d r d' h (noted _ job k why e) = (h, inl refl)
  Processed-Advanced p u d r d' h (applied _ _ job row k a ok f e jobs events user books) =
      subst
        (λ (rows : List EmailJob).
          UniqueJobs rows × Progress (status_of u d) (status_in (job_by_id u rows)))
        (sym jobs)
        (
          UniqueJobs-update (takes_report (delivery_params p job)) _ d.email_jobs (λ j. refl) h,
          status-Progress (delivery_params p job) d.clock d.email_jobs job refl
              (Addressed-row lc p d job h a)
              (allowed_transition-rank job.delivery_status p.delivery_status
                (applicable-allowed p job ok))
              u,
        )

  abbrev pub after_report : ProcessEmailDeliveryEventParams → World → Db → Db
  after_report p w d = after (process_email_delivery_event_tx lc p) w d

  after_report-Advanced :
      (p : ProcessEmailDeliveryEventParams) (w : World) (u : Uuid) (d : Db)
      → UniqueJobs d.email_jobs
      → Advanced u d (after_report p w d)
  after_report-Advanced p w u d h = kept_after (Advanced u d) w (
      weaken (process_email_delivery_event_tx-Processed lc p d)
        (λ r d' k. Processed-Advanced p u d r d' h k)
        (λ e d' same. subst (Advanced u d) (sym same) (h, inl refl)))

  -- How often the status of a job changes while the reports come in, each with its world of faults.
  pub status_changes : Uuid → List (ProcessEmailDeliveryEventParams × World) → Db → ℕ
  status_changes u [] d = 0
  status_changes u ((p, w) ∷ reports) d =
      (if str_eq (status_of u (after_report p w d)) (status_of u d) then 0 else 1)
      + status_changes u reports (after_report p w d)

  changes_bound :
      (u : Uuid) (reports : List (ProcessEmailDeliveryEventParams × World)) (d : Db)
      → UniqueJobs d.email_jobs
      → status_changes u reports d + rank (status_of u d) ≤ 5
  unfolding status_changes
  changes_bound u [] d h = let top = rank-le (status_of u d) in omega (arith, top)
  changes_bound u ((p, w) ∷ reports) d h =
      let (keys, way) = after_report-Advanced p w u d h in
      let later = changes_bound u reports (after_report p w d) keys in
      elim way [
        | inl same ↦
            let still = (eq_iff (status_of u (after_report p w d)) (status_of u d)).1 same in
            let rest =
              subst (λ (s : String). status_changes u reports (after_report p w d) + rank s ≤ 5)
                same later in
            rw still (omega (arith, rest))
        | inr up ↦ elim (Bool-cases (str_eq (status_of u (after_report p w d)) (status_of u d))) [
          | inl e ↦ rw e (omega (arith, later, up))
          | inr e ↦ rw e (omega (arith, later, up))
        ]
      ]

  -- From a table with its primary key, the delivery status of a job changes at most five times, however
  -- many reports come in, in whatever order, and whichever calls fail.
  pub process_email_delivery_event_tx-settles :
      (u : Uuid) (reports : List (ProcessEmailDeliveryEventParams × World)) (d : Db)
      → UniqueJobs d.email_jobs
      → status_changes u reports d ≤ 5
  process_email_delivery_event_tx-settles u reports d h = omega (arith, changes_bound u reports d h)
