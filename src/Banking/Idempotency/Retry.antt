-- ===== src/Banking/Idempotency/Retry.antt =====
-- A key that is taken: the retry of a request that succeeded, and another request under its key.
use mathlib.Core.Bool.{false≢true}
use monierave.Base.{
  bytes_equal, bytes_equal_self, ℕ, ◌≡◌, refl, true, false, not, some, inl, inr, leb, ◌+◌, ◌<◌,
  find_first, select, sym, ◌∙◌, ap, subst, some_eq, none_ne_some, true_of_not, ◌⊎◌, arith, List,
  ◌∷◌, [], Bool-cases,
}
use monierave.Models.{
  Fault, db_fault, Uuid, TransferTxResult, IdempotencyKey, Error, idempotency_conflict, joined,
}
use monierave.Models.Tables.{Db}
use monierave.Store.{World, ok, Tx, fail_if, ◌>>◌}
use monierave.Store.Rules.{Post, Runs, pure_rule, then_rule, catch_rule, weaken, fail_if_rule}
use monierave.Store.Atomic.{
  TxError, TxError-unchanged, exec_tx_rule, Infrastructure, of_fault, of_join,
  TxError-Infrastructure, Rejection, the_cause, beside, outside, TxError-Rejection,
}
use monierave.Queries.Idempotency.{
  KeyName, names, key_by_name, live_keys, with_keys, key_lifetime, outdated,
  delete_expired_idempotency_key_rule, get_idempotency_key_for_update_rule,
}
use monierave.Books.Invariant.{IsConsistent}
use monierave.Banking.Audit.{audit_correlation_rule}
use monierave.Banking.Transfer.Outcome.{
  SameMoney, SameMoney-of_eq, Reported, as_it_is, beside_record, audit_transfer_failure-Reported,
}
use monierave.Banking.Idempotency.{
  IdempotentTransferTxParams, key_name, invalid_key, transfer_under_key, replay, replayed_result,
  idempotent_transfer_with_queries, idempotent_transfer_tx,
}
use monierave.Banking.Idempotency.Outcome.{Replays, Stores, idempotent_transfer_tx-outcome}
use monierave.Banking.Idempotency.Rules.{reserve_key_rule}

-- The key of a request is taken by a row that has not expired.
pub record Taken (p : IdempotentTransferTxParams) (d : Db) (k : IdempotencyKey) : Type 0 where
  pub valid : invalid_key p ≡ false
  pub found : key_by_name (key_name p) d.idempotency_keys ≡ some k
  pub row_live : leb k.expires_at d.clock ≡ false

-- Every row of the name that is found first is the live one, so the sweep leaves it.
module _ (n : KeyName) (now : ℕ) where
  select-live :
      (rows : List IdempotencyKey) (k : IdempotencyKey)
      → find_first (names n) rows ≡ some k
      → leb k.expires_at now ≡ false
      → find_first (names n) (select (λ x. not (outdated n now x)) rows) ≡ some k
  unfolding find_first select
  select-live [] k e h = e
  select-live (x ∷ rows) k e h = elim (Bool-cases (names n x)) [
    | inl hit ↦
        let same : x ≡ k = some_eq (rw hit at e) in
        let live : leb x.expires_at now ≡ false =
          subst (λ (y : IdempotencyKey). leb y.expires_at now ≡ false) (sym same) h in
        rw (hit, live, hit) (ap some same)
    | inr miss ↦ rw (miss, miss) (select-live rows k (rw miss at e) h)
  ]

module _ (p : IdempotentTransferTxParams) (d : Db) (k : IdempotencyKey) (t : Taken p d k) where
  sweep_keeps : key_by_name (key_name p) (live_keys (key_name p) d) ≡ some k
  sweep_keeps = select-live (key_name p) d.clock d.idempotency_keys k t.found t.row_live

  module _ (E : Error → Type 0) (Q : TransferTxResult → Db → Type 0)
      (fault : (f : Fault) → E (db_fault f))
      (replays : Runs (λ e _. E e) Q (replay p) (with_keys d (live_keys (key_name p) d))) where
    taken-replays :
        (correlation : Uuid)
        → Runs (λ e _. E e) Q (idempotent_transfer_with_queries p correlation) d
    unfolding idempotent_transfer_with_queries transfer_under_key
    taken-replays correlation = then_rule (
        delete_expired_idempotency_key_rule (λ f _. fault f) _
          (then_rule (
            reserve_key_rule (λ f _. fault f) p (λ _ _. replays)
              (λ free. absurd (none_ne_some (sym free ∙ sweep_keeps))))))

    taken-outcome :
        ((e x : Error) → E e → E (joined e x))
        → ((e : Error) (d' : Db) → TxError (λ y _. E y) d e d' → E e)
        → Runs (λ e d'. E e × SameMoney d d') Q (idempotent_transfer_tx p) d
    unfolding idempotent_transfer_tx
    taken-outcome join unwrap = then_rule (
        fail_if_rule _ (λ bad. absurd (false≢true (sym t.valid ∙ bad)))
          λ _. then_rule (
            audit_correlation_rule p.transfer.correlation_id λ correlation.
              catch_rule (exec_tx_rule (taken-replays correlation)) λ e d' h.
                weaken (audit_transfer_failure-Reported p.transfer correlation e d') (λ r d'' q. q)
                  (λ x d'' (s, rep).
                    (reported e x rep (unwrap e d' h), SameMoney-of_eq (TxError-unchanged h) s))))
      where
        reported : (e x : Error) → Reported e x → E e → E x
        reported e x as_it_is h = h
        reported e x (beside_record y) h = join e y h

-- What a replay makes of the row that it reads.
abbrev judged : IdempotentTransferTxParams → IdempotencyKey → Tx TransferTxResult
judged p k =
    fail_if (not (bytes_equal k.request_hash p.request_hash)) idempotency_conflict
    >> replayed_result k

module _ {E : Error → Type 0} {Q : TransferTxResult → Db → Type 0}
    (fault : (f : Fault) → E (db_fault f)) (p : IdempotentTransferTxParams) (d : Db)
    (k : IdempotencyKey) where
  replay_rule :
      key_by_name (key_name p) d.idempotency_keys ≡ some k
      → Runs (λ e _. E e) Q (judged p k) d
      → Runs (λ e _. E e) Q (replay p) d
  unfolding replay
  replay_rule found h = then_rule (
      get_idempotency_key_for_update_rule (λ f _. fault f) _
        (λ missing. absurd (none_ne_some (sym missing ∙ found)))
        λ x there. subst (λ y. Runs (λ e _. E e) Q (judged p y) d) (some_eq (sym found ∙ there)) h)

  judged-conflict :
      bytes_equal k.request_hash p.request_hash ≡ false
      → E idempotency_conflict
      → Runs (λ e _. E e) Q (judged p k) d
  judged-conflict other h =
      then_rule (fail_if_rule _ (λ _. h) λ same. absurd (false≢true (sym other ∙ true_of_not same)))

  judged-stored :
      (u : Uuid) (r : TransferTxResult)
      → k.request_hash ≡ p.request_hash
      → k.transaction_id ≡ some u
      → k.result_snapshot ≡ some r
      → Q (record r { replayed = true }) d
      → Runs (λ e _. E e) Q (judged p k) d
  unfolding replayed_result
  judged-stored u r hash done snapshot h = then_rule (
      fail_if_rule _
        (λ differs. absurd (false≢true (rw (hash, bytes_equal_self p.request_hash) at differs)))
        λ _. rw (done, snapshot) (pure_rule _ h))

-- A request whose key stores the result of the same request gets that result, marked as replayed,
-- and the books stay as they are; no error but one of the infrastructure can come back.
pub idempotent_transfer_tx-replay :
    (p : IdempotentTransferTxParams) (d : Db) (k : IdempotencyKey) (u : Uuid) (r : TransferTxResult)
    → Taken p d k
    → k.request_hash ≡ p.request_hash
    → k.transaction_id ≡ some u
    → k.result_snapshot ≡ some r
    → Runs
        (λ e d'. Infrastructure e × SameMoney d d')
        (λ r' d'. (r' ≡ record r { replayed = true }) × (d'.books ≡ d.books))
        (idempotent_transfer_tx p)
        d
idempotent_transfer_tx-replay p d k u r t hash done snapshot =
    taken-outcome p d k t Infrastructure _ of_fault
      (replay_rule of_fault p _ k (sweep_keeps p d k t)
        (judged-stored of_fault p _ k u r hash done snapshot (refl, refl)))
      (λ e x h. of_join e x h) (λ e d' h. TxError-Infrastructure h)

-- A request whose key is taken by another request never succeeds: it ends in the conflict, or in an
-- error of the infrastructure, and no account, ledger row, user or idempotency key differs.
pub idempotent_transfer_tx-conflict :
    (p : IdempotentTransferTxParams) (d : Db) (k : IdempotencyKey)
    → Taken p d k
    → bytes_equal k.request_hash p.request_hash ≡ false
    → Runs
        (λ e d'. Rejection idempotency_conflict e × SameMoney d d')
        (λ _ _. ⊥)
        (idempotent_transfer_tx p)
        d
idempotent_transfer_tx-conflict p d k t other =
    taken-outcome p d k t (Rejection idempotency_conflict) _ (λ f. outside _ (of_fault f))
      (replay_rule (λ f. outside _ (of_fault f)) p _ k (sweep_keeps p d k t)
        (judged-conflict (λ f. outside _ (of_fault f)) p _ k other the_cause))
      (λ e x h. beside e x h) (λ e d' h. TxError-Rejection h)

not_replayed :
    (p : IdempotentTransferTxParams) (d : Db) (r : TransferTxResult) (d' : Db)
    → r.replayed ≡ false
    → Replays p d r d' ⊎ Stores p d r d'
    → Stores p d r d'
not_replayed p d r d' fresh (inl h) =
    absurd (false≢true (sym fresh ∙ ap (λ (x : TransferTxResult). x.replayed) h.result))
not_replayed p d r d' fresh (inr h) = h

later_than : (expiry now : ℕ) → now < expiry → leb expiry now ≡ false
later_than expiry now h = ground arith

-- Where a value came back, the rule's claim on values holds.
at_ok :
    {A : Type 0} {E : Error → Db → Type 0} {Q : A → Db → Type 0} {m : Tx A} (w w' : World) (r : A)
    → Runs E Q m w.db
    → m w ≡ (ok r, w')
    → Q r w'.db
at_ok {E} {Q} w w' r h e = subst (λ x. Post E Q x) e (h.at w)

-- Once a request has made its transfer in consistent books, the same request within 24 hours, in any
-- database that still has those keys, returns the same result, marked as replayed, and moves no
-- money; no error but one of the infrastructure can come back.
pub idempotent_transfer_tx-retry :
    (p : IdempotentTransferTxParams) (w w' : World) (r : TransferTxResult) (later : Db)
    → IsConsistent w.db.books
    → idempotent_transfer_tx p w ≡ (ok r, w')
    → r.replayed ≡ false
    → later.idempotency_keys ≡ w'.db.idempotency_keys
    → later.clock < w.db.clock + key_lifetime
    → Runs
        (λ e x. Infrastructure e × SameMoney later x)
        (λ r' x. (r' ≡ record r { replayed = true }) × (x.books ≡ later.books))
        (idempotent_transfer_tx p)
        later
idempotent_transfer_tx-retry p w w' r later c run fresh keys clock =
    let (valid, h, _) = at_ok w w' r (idempotent_transfer_tx-outcome p w.db c) run in
    let s = not_replayed p w.db r w'.db fresh h in
    idempotent_transfer_tx-replay p later s.key r.transaction.id r
      (record {
        valid = valid;
        found = ap (key_by_name (key_name p)) keys ∙ s.kept;
        row_live =
            later_than s.key.expires_at later.clock
              (subst (λ x. later.clock < x) (sym s.expiry) clock);
      })
      s.hash s.transaction s.snapshot
