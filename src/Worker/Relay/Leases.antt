-- ===== src/Worker/Relay/Leases.antt =====
-- What the outbox's queries and the passing of time make of an event that a relay holds.
use mathlib.Core.Bool.{false≢true}
use monierave.Base.{
  ℕ, ◌≤◌, ◌≡◌, ◌≢◌, List, [], ◌∷◌, Bool, true, false, ◌==◌, ==_iff, not, ltb, find_first,
  find_first_sound, select, update_where, Every, Every-weaken, Every-select, Every-order_by,
  Every-take, Every-find_first, Every-append, Bool-cases, Option-cases, inl, inr, sym, ◌∙◌, subst,
  arith,
}
use monierave.Models.{Uuid, Time, OutboxEvent, Message}
use monierave.Models.Tables.{Db}
use monierave.Store.{World}
use monierave.Store.After.{after, kept_after}
use monierave.Store.Rules.{Runs, Answer-one, query_here_rule}
use monierave.Queries.Records.{OutboxEventParams, new_outbox_event, create_outbox_event}
use monierave.Queries.Outbox.{
  ClaimOutboxEventsParams, is_due, candidates, is_among, claim_outbox_events, has_event_id,
  event_by_id, published, mark_outbox_event_published, released, release_outbox_event, is_expired,
  delete_expired_published_outbox_events,
}

-- One query of a relay on the outbox, a new event, or anything that leaves the outbox alone, such as time
-- that goes by.
pub data RelayStep (d : Db) : Db → Type 0 where
  claim :
      (p : ClaimOutboxEventsParams) (w : World) → RelayStep d (after (claim_outbox_events p) w d)
  publication : (v : Uuid) (w : World) → RelayStep d (after (mark_outbox_event_published v) w d)
  release :
      (v : Uuid) (available : Time) (reason : Message) (w : World)
      → RelayStep d (after (release_outbox_event v available reason) w d)
  cleanup :
      (t : Time) (w : World) → RelayStep d (after (delete_expired_published_outbox_events t) w d)
  creation : (p : OutboxEventParams) (w : World) → RelayStep d (after (create_outbox_event p) w d)
  elsewhere : (d' : Db) → d'.outbox_events ≡ d.outbox_events → RelayStep d d'

pub data RelaySteps (d : Db) : Db → Type 0 where
  none_yet : RelaySteps d d
  one_more : (d1 d2 : Db) → RelaySteps d d1 → RelayStep d1 d2 → RelaySteps d d2

module _ (u : Uuid) (lease : Time) where
  -- A claim within the lease, no release of the event, and no other event of its id.
  abbrev pub WithinStep : (d d' : Db) → RelayStep d d' → Type 0
  WithinStep d _ (claim p w) = d.clock ≤ lease
  WithinStep d _ (publication v w) = Unit
  WithinStep d _ (release v available reason w) = v ≢ u
  WithinStep d _ (cleanup t w) = Unit
  WithinStep d _ (creation p w) = p.id ≢ u
  WithinStep d d' (elsewhere _ e) = Unit

  abbrev pub Within : (d d' : Db) → RelaySteps d d' → Type 0
  Within d _ none_yet = Unit
  Within d _ (one_more d1 d2 steps step) = Within d d1 steps × WithinStep d1 d2 step

  -- No row of the event is due before the lease is over.
  abbrev pub Blocked : OutboxEvent → Type 0
  Blocked e = e.id ≡ u → (now : Time) → now ≤ lease → is_due now e ≡ false

  pub record Held (d : Db) : Type 0 where
    pub rows : Every Blocked d.outbox_events

  update_rows :
      (p : OutboxEvent → Bool) (f : OutboxEvent → OutboxEvent) (rows : List OutboxEvent)
      → ((e : OutboxEvent) → p e ≡ true → Blocked e → Blocked (f e))
      → Every Blocked rows
      → Every Blocked (update_where p f rows)
  unfolding update_where
  update_rows p f [] keeps h = tt
  update_rows p f (e ∷ rows) keeps (h, hs) = elim (Bool-cases (p e)) [
    | inl hit ↦ rw hit (keeps e hit h, update_rows p f rows keeps hs)
    | inr miss ↦ rw miss (h, update_rows p f rows keeps hs)
  ]

  -- A claim within the lease has no row of the event among its candidates.
  pub other_candidates :
      (n : ℕ) (now : Time) (rows : List OutboxEvent)
      → now ≤ lease
      → Every Blocked rows
      → Every (λ c. c.id ≢ u) (candidates n now rows)
  unfolding candidates
  other_candidates n now rows early h =
      Every-take (λ c. c.id ≢ u) n _
        ((Every-order_by (λ e v. ltb e.created_at v.created_at) (λ c. c.id ≢ u)
            (select (is_due now) rows)).1
          (Every-weaken (select (is_due now) rows)
            (λ e (k, due) same. false≢true (sym (k same now early) ∙ due))
            (Every-select Blocked (is_due now) rows h)))

  pub not_among :
      (cs : List OutboxEvent) (e : OutboxEvent)
      → Every (λ c. c.id ≢ u) cs
      → is_among cs e ≡ true
      → e.id ≢ u
  not_among cs e h k = elim (Option-cases (find_first (λ c. c.id == e.id) cs)) [
    | inl missing ↦ absurd (false≢true (rw missing at k))
    | inr (c, found) ↦
        subst (λ v. v ≢ u) ((==_iff c.id e.id).0 (find_first_sound (λ x. x.id == e.id) cs c found))
          (Every-find_first (λ x. x.id ≢ u) (λ x. x.id == e.id) cs c h found)
  ]

  published-Blocked : (now : Time) (e : OutboxEvent) → Blocked (published now e)
  published-Blocked now e same t early = ground arith

  Held-claimed :
      (p : ClaimOutboxEventsParams) (d : Db)
      → d.clock ≤ lease
      → Held d
      → Runs (λ _ d'. Held d') (λ _ d'. Held d') (claim_outbox_events p) d
  unfolding claim_outbox_events
  Held-claimed p d early h =
      query_here_rule _ (λ _. h)
        (record {
          rows =
              update_rows _ _ d.outbox_events
                (λ e hit _ same. absurd (
                  not_among (candidates p.batch_size d.clock d.outbox_events) e
                    (other_candidates p.batch_size d.clock d.outbox_events early h.rows) hit same))
                h.rows;
        })

  Held-published :
      (v : Uuid) (d : Db)
      → Held d
      → Runs (λ _ d'. Held d') (λ _ d'. Held d') (mark_outbox_event_published v) d
  unfolding mark_outbox_event_published
  Held-published v d h =
      query_here_rule _ (λ _. h)
        (Answer-one (λ _ x. Held x) (λ _ x. Held x) d (event_by_id v d.outbox_events) _ (λ _. h)
          (λ e found. record {
            rows =
                update_rows (has_event_id v) (published d.clock) d.outbox_events
                  (λ x _ _. published-Blocked d.clock x) h.rows;
          }))

  Held-released :
      (v : Uuid) (available : Time) (reason : Message) (d : Db)
      → v ≢ u
      → Held d
      → Runs (λ _ d'. Held d') (λ _ d'. Held d') (release_outbox_event v available reason) d
  unfolding release_outbox_event
  Held-released v available reason d other h =
      query_here_rule _ (λ _. h)
        (Answer-one (λ _ x. Held x) (λ _ x. Held x) d (event_by_id v d.outbox_events) _ (λ _. h)
          (λ e found. record {
            rows =
                update_rows (has_event_id v) (released available reason) d.outbox_events
                  (λ x hit _ same. absurd (other (sym ((==_iff x.id v).0 hit) ∙ same))) h.rows;
          }))

  Held-cleaned :
      (t : Time) (d : Db)
      → Held d
      → Runs (λ _ d'. Held d') (λ _ d'. Held d') (delete_expired_published_outbox_events t) d
  unfolding delete_expired_published_outbox_events
  Held-cleaned t d h =
      query_here_rule _ (λ _. h)
        (record {
          rows =
              Every-weaken (select (λ e. not (is_expired t e)) d.outbox_events) (λ e k. k.0)
                (Every-select Blocked (λ e. not (is_expired t e)) d.outbox_events h.rows);
        })

  Held-created :
      (p : OutboxEventParams) (d : Db)
      → p.id ≢ u
      → Held d
      → Runs (λ _ d'. Held d') (λ _ d'. Held d') (create_outbox_event p) d
  unfolding create_outbox_event
  Held-created p d other h =
      query_here_rule _ (λ _. h)
        (record {
          rows =
              Every-append Blocked d.outbox_events (new_outbox_event p d ∷ []) h.rows
                ((λ same. absurd (other same)), tt);
        })

  RelayStep-Held : (d d' : Db) (step : RelayStep d d') → WithinStep d d' step → Held d → Held d'
  RelayStep-Held d _ (claim p w) early h = kept_after Held w (Held-claimed p d early h)
  RelayStep-Held d _ (publication v w) _ h = kept_after Held w (Held-published v d h)
  RelayStep-Held d _ (release v available reason w) other h =
      kept_after Held w (Held-released v available reason d other h)
  RelayStep-Held d _ (cleanup t w) _ h = kept_after Held w (Held-cleaned t d h)
  RelayStep-Held d _ (creation p w) other h = kept_after Held w (Held-created p d other h)
  RelayStep-Held d d' (elsewhere _ e) _ h = record { rows = subst (Every Blocked) (sym e) h.rows }

  pub RelaySteps-Held : (d d' : Db) (steps : RelaySteps d d') → Within d d' steps → Held d → Held d'
  RelaySteps-Held d _ none_yet _ h = h
  RelaySteps-Held d _ (one_more d1 d2 steps step) (before, within) h =
      RelayStep-Held d1 d2 step within (RelaySteps-Held d d1 steps before h)
