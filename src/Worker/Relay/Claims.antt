-- ===== src/Worker/Relay/Claims.antt =====
-- Claims of an event that a relay holds.
use mathlib.Core.Bool.{false≢true}
use monierave.Base.{
  ◌≤◌, ◌≡◌, ◌≢◌, List, [], ◌∷◌, some, true, ◌==◌, ==_iff, map, find_first, find_first_sound, select,
  update_where, Every, Every-weaken, Every-select, Every-find_first, Every-map, Every-all,
  Bool-cases, inl, inr, sym, ◌∙◌, ap, subst, arith,
}
use monierave.Models.{Uuid, OutboxEvent}
use monierave.Models.Tables.{Db}
use monierave.Store.{World, ok}
use monierave.Store.After.{returned}
use monierave.Store.Rules.{Runs, AnyError, query_here_rule}
use monierave.Queries.Ledger.{is_some}
use monierave.Queries.Outbox.{
  ClaimOutboxEventsParams, candidates, is_among, claimed, claim_outbox_events, has_event_id,
}
use monierave.Worker.Relay.Leases.{
  RelaySteps, Within, Blocked, Held, other_candidates, not_among, RelaySteps-Held,
}

-- Every event that a claim returns is among the candidates.
claimed_among :
    (p : ClaimOutboxEventsParams) (cs rows : List OutboxEvent)
    → Every (λ e. is_among cs e ≡ true) (map (claimed p) (select (is_among cs) rows))
claimed_among p cs rows =
    Every-map (λ e. is_among cs e ≡ true) (claimed p) (select (is_among cs) rows)
      (Every-weaken (select (is_among cs) rows) (λ e h. h.1)
        (Every-select (λ e. Unit {0}) (is_among cs) rows
          (Every-all (λ e. Unit {0}) rows (λ e. tt))))

module _ (u : Uuid) (p : ClaimOutboxEventsParams) where
  claimed-Blocked : (e : OutboxEvent) → Blocked u p.claimed_until (claimed p e)
  claimed-Blocked e same now early = ground arith

  -- Every row of an event that is among the candidates gets the lease.
  claimed_rows :
      (cs rows : List OutboxEvent)
      → is_some (find_first (λ (c : OutboxEvent). c.id == u) cs) ≡ true
      → Every (Blocked u p.claimed_until) (update_where (is_among cs) (claimed p) rows)
  unfolding update_where
  claimed_rows cs [] here = tt
  claimed_rows cs (e ∷ rows) here = elim (Bool-cases (is_among cs e)) [
    | inl hit ↦ rw hit (claimed-Blocked e, claimed_rows cs rows here)
    | inr miss ↦ rw miss (
      (λ same. absurd (
          false≢true (
            sym miss
            ∙ ap (λ v. is_some (find_first (λ (c : OutboxEvent). c.id == v) cs)) same
            ∙ here))),
      claimed_rows cs rows here,
    )
  ]

  -- A claim that returns the event leaves it held.
  claim-Held :
      (d : Db)
      → Runs AnyError
          (λ first d1.
            (e : OutboxEvent)
            → find_first (has_event_id u) first ≡ some e
            → Held u p.claimed_until d1)
          (claim_outbox_events p)
          d
  unfolding claim_outbox_events
  claim-Held d =
      let cs = candidates p.batch_size d.clock d.outbox_events in
      query_here_rule _ (λ _. tt)
        (λ e found. record {
          rows = claimed_rows cs d.outbox_events (
              subst (λ v. is_some (find_first (λ (c : OutboxEvent). c.id == v) cs) ≡ true)
                ((==_iff e.id u).0 (find_first_sound (has_event_id u) _ e found))
                (Every-find_first (λ x. is_among cs x ≡ true) (has_event_id u) _ e
                  (claimed_among p cs d.outbox_events) found));
        })

  -- While an event is held, no claim returns it.
  Held-claim :
      (q : ClaimOutboxEventsParams) (d : Db)
      → d.clock ≤ p.claimed_until
      → Held u p.claimed_until d
      → Runs AnyError (λ second _. Every (λ f. f.id ≢ u) second) (claim_outbox_events q) d
  unfolding claim_outbox_events
  Held-claim q d early h =
      let cs = candidates q.batch_size d.clock d.outbox_events in
      query_here_rule _ (λ _. tt)
        (Every-weaken (map (claimed q) (select (is_among cs) d.outbox_events))
          (λ f hit.
            not_among u p.claimed_until cs f
              (other_candidates u p.claimed_until q.batch_size d.clock d.outbox_events early h.rows)
              hit)
          (claimed_among q cs d.outbox_events))

-- Of an event that a relay has claimed, no other claim gets hold while the lease lasts and the event is
-- not released: whatever claims within the lease, publications, releases of other events, cleanups and
-- new events of other ids come in between, a claim up to the end of the lease, by whichever relay, does
-- not return it.
pub claim_outbox_events-exclusive :
    (p q : ClaimOutboxEventsParams) (w w1 : World) (first : List OutboxEvent) (u : Uuid)
    (e : OutboxEvent) (d : Db)
    → claim_outbox_events p w ≡ (ok first, w1)
    → find_first (has_event_id u) first ≡ some e
    → (steps : RelaySteps w1.db d) → Within u p.claimed_until w1.db d steps
    → d.clock ≤ p.claimed_until
    → Runs AnyError (λ second _. Every (λ f. f.id ≢ u) second) (claim_outbox_events q) d
claim_outbox_events-exclusive p q w w1 first u e d claims found steps within early =
    Held-claim u p q d early (
      RelaySteps-Held u p.claimed_until w1.db d steps within
        (returned w w1 first claims (claim-Held u p w.db) e found))
