-- ===== src/Banking/Idempotency/Outcome.antt =====
-- How `idempotent_transfer_tx` can end.
use monierave.Base.{
  bytes_equal, ◌≡◌, refl, true, false, none, some, ◌⊎◌, inl, inr, ◌+◌, update_where, sym, ◌∙◌, ap,
  subst, true_of_not,
}
use monierave.Models.{Uuid, TransferTxResult, IdempotencyKey}
use monierave.Models.Tables.{Db}
use monierave.Store.Rules.{
  Runs, AnyError, pure_rule, then_rule, bind_rule, catch_rule, weaken, fail_if_rule,
}
use monierave.Store.Atomic.{TxError-unchanged, exec_tx_rule}
use monierave.Queries.Idempotency.{
  key_by_name, live_keys, with_keys, new_key, key_lifetime, completable, completed,
  delete_expired_idempotency_key_rule, get_idempotency_key_for_update_rule,
  complete_idempotency_key_rule,
}
use monierave.Books.Invariant.{IsConsistent}
use monierave.Banking.Audit.{audit_correlation_rule}
use monierave.Banking.Transfer.Effect.{TransferEffect, transfer_with_queries-effect}
use monierave.Banking.Transfer.Invariant.{transfer-IsConsistent}
use monierave.Banking.Transfer.Outcome.{
  SameMoney, SameMoney-refl, SameMoney-of_eq, audit_transfer_failure-Reported,
}
use monierave.Banking.Idempotency.{
  IdempotentTransferTxParams, key_name, invalid_key, replay, transfer_under_key,
  idempotent_transfer_with_queries, idempotent_transfer_tx, idempotency_response_status_created,
}
use monierave.Banking.Idempotency.Rules.{reserve_key_rule, stored_key, replayed_result_rule}

-- The key was taken by the same request, and what it stores came back.
pub record Replays (p : IdempotentTransferTxParams) (d : Db) (r : TransferTxResult) (d' : Db)
    : Type 0 where
  pub existing : IdempotencyKey
  pub found : key_by_name (key_name p) (live_keys (key_name p) d) ≡ some existing
  pub same_request : bytes_equal existing.request_hash p.request_hash ≡ true
  pub stored : TransferTxResult
  pub snapshot : existing.result_snapshot ≡ some stored
  pub result : r ≡ record stored { replayed = true }
  pub books : d'.books ≡ d.books

-- The key was free: the transfer was made, and its result is stored under the key.
pub record Stores (p : IdempotentTransferTxParams) (d : Db) (r : TransferTxResult) (d' : Db)
    : Type 0 where
  pub free : key_by_name (key_name p) (live_keys (key_name p) d) ≡ none
  pub start : Db
  pub end : Db
  pub same_start : (start.books ≡ d.books) × (start.clock ≡ d.clock)
  pub same_end : d'.books ≡ end.books
  pub effect : TransferEffect p.transfer start r end
  pub key : IdempotencyKey
  pub kept : key_by_name (key_name p) d'.idempotency_keys ≡ some key
  pub hash : key.request_hash ≡ p.request_hash
  pub snapshot : key.result_snapshot ≡ some r
  pub transaction : key.transaction_id ≡ some r.transaction.id
  pub expiry : key.expires_at ≡ d.clock + key_lifetime

idempotent_transfer_with_queries-effect :
    (p : IdempotentTransferTxParams) (correlation : Uuid) (d : Db)
    → Runs AnyError
        (λ r d'. Replays p d r d' ⊎ Stores p d r d')
        (idempotent_transfer_with_queries p correlation)
        d
unfolding idempotent_transfer_with_queries transfer_under_key replay
idempotent_transfer_with_queries-effect p correlation d = then_rule (
    delete_expired_idempotency_key_rule (λ _ _. tt) _
      (then_rule (
        reserve_key_rule (λ _ _. tt) p
          (λ k taken. then_rule (
            get_idempotency_key_for_update_rule (λ _ _. tt) _ (λ _. tt)
              λ x found. then_rule (
                fail_if_rule _ (λ _. tt)
                  λ same. replayed_result_rule x tt λ r snapshot. inl (record {
                    existing = x;
                    found = found;
                    same_request = true_of_not same;
                    stored = r;
                    snapshot = snapshot;
                    result = refl;
                    books = refl;
                  }))))
          (λ free. bind_rule (transfer_with_queries-effect p.transfer correlation _) λ r end t.
            then_rule (
              complete_idempotency_key_rule (λ _ _. tt) _ _ _ r (λ _. tt)
                λ k _. pure_rule r (
                  inr (record {
                    free = free;
                    start = _;
                    end = end;
                    same_start = (refl, refl);
                    same_end = refl;
                    effect = t;
                    key =
                        completed r.transaction.id idempotency_response_status_created r
                          (new_key (key_name p) p.request_hash d);
                    kept =
                        ap
                          (λ rows. key_by_name (key_name p) (
                            update_where (completable (key_name p))
                              (completed r.transaction.id idempotency_response_status_created r)
                              rows))
                          t.keys
                        ∙ stored_key (key_name p) p.request_hash
                            (with_keys d (live_keys (key_name p) d)) r.transaction.id
                            idempotency_response_status_created r (live_keys (key_name p) d) free;
                    hash = refl;
                    snapshot = refl;
                    transaction = refl;
                    expiry = refl;
                  })))))))

stored-IsConsistent :
    (p : IdempotentTransferTxParams) (d : Db) (r : TransferTxResult) (d' : Db)
    → IsConsistent d.books
    → Replays p d r d' ⊎ Stores p d r d'
    → IsConsistent d'.books
stored-IsConsistent p d r d' c (inl h) = subst IsConsistent (sym h.books) c
stored-IsConsistent p d r d' c (inr h) =
    subst IsConsistent (sym h.same_end)
      (transfer-IsConsistent h.effect (subst IsConsistent (sym h.same_start.0) c))

-- From consistent books, a request under a key either finds the key taken by the same request and
-- returns the stored result without touching the books, or makes the transfer and stores its result
-- under the key, or returns an error and changes no account, ledger row, user or idempotency key.
-- The books stay consistent.
pub idempotent_transfer_tx-outcome :
    (p : IdempotentTransferTxParams) (d : Db)
    → IsConsistent d.books
    → Runs
        (λ _ d'. SameMoney d d')
        (λ r d'.
          (invalid_key p ≡ false) × (Replays p d r d' ⊎ Stores p d r d') × IsConsistent d'.books)
        (idempotent_transfer_tx p)
        d
unfolding idempotent_transfer_tx
idempotent_transfer_tx-outcome p d c = then_rule (
    fail_if_rule _ (λ _. SameMoney-refl d)
      λ valid. then_rule (
        audit_correlation_rule p.transfer.correlation_id λ correlation.
          catch_rule
            (weaken (exec_tx_rule (idempotent_transfer_with_queries-effect p correlation d))
              (λ r d' h. (valid, h, stored-IsConsistent p d r d' c h)) (λ e d' h. h))
            λ e d' h.
              weaken (audit_transfer_failure-Reported p.transfer correlation e d') (λ r d'' q. q)
                (λ x d'' (s, _). SameMoney-of_eq (TxError-unchanged h) s)))
