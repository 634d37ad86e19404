-- ===== src/Banking/Idempotency.antt =====
-- `IdempotentTransferTx` (db/sqlc/transaction_tx.go): the key is reserved, the transfer made and its
-- result stored under the key in one transaction; a key that is taken replays what it stores.
pub mod Rules
pub mod Outcome
pub mod Retry
use monierave.Base.{
  bytes_equal, ℕ, ◌≡◌, refl, String, List, [], ◌∷◌, Bool, true, false, ◌||◌, ◌&&◌, not, Option,
  none, some, ltb, ◌==◌, length, is_empty, byte_count, arith,
}
use monierave.Models.{
  Uuid, TransferTxResult, IdempotencyKey, Error, no_rows, idempotency_conflict,
  invalid_idempotency_key, incomplete_idempotency_record,
}
use monierave.Store.{Tx, pure, raise, ◌>>=◌, ◌>>◌, fail_if, exec_tx, catch}
use monierave.Queries.Idempotency.{
  KeyName, delete_expired_idempotency_key, create_idempotency_key, get_idempotency_key_for_update,
  complete_idempotency_key,
}
use monierave.Banking.Audit.{audit_correlation}
use monierave.Banking.Transfer.{TransferTxParams, transfer_with_queries, audit_transfer_failure}

pub record IdempotentTransferTxParams : Type 0 where
  pub transfer : TransferTxParams
  pub idempotency_key : String
  pub request_hash : List ℕ

abbrev pub key_name : IdempotentTransferTxParams → KeyName
key_name p = record {
  username = p.transfer.username;
  operation = "internal_transfer";
  idempotency_key = p.idempotency_key;
}

abbrev pub idempotency_response_status_created : ℕ
idempotency_response_status_created = 201

abbrev pub invalid_key : IdempotentTransferTxParams → Bool
invalid_key p =
    is_empty p.idempotency_key
    || ltb 128 (byte_count p.idempotency_key)
    || not (length p.request_hash == 32)

-- `none` is the `pgx.ErrNoRows` of a key that is taken.
unfoldable pub none_for_no_rows : Error → Tx (Option IdempotencyKey)
none_for_no_rows no_rows = pure none
none_for_no_rows e = raise e

unfoldable pub reserve_key : IdempotentTransferTxParams → Tx (Option IdempotencyKey)
reserve_key p =
    catch (create_idempotency_key (key_name p) p.request_hash >>= λ k. pure (some k))
      none_for_no_rows

-- The stored result: the snapshot, for a key that is complete.
unfoldable pub replayed_result : IdempotencyKey → Tx TransferTxResult
replayed_result k = elim k.transaction_id [
  | none ↦ raise incomplete_idempotency_record
  | some t ↦ elim k.result_snapshot [
    | none ↦ raise incomplete_idempotency_record
    | some r ↦ pure (record r { replayed = true })
  ]
]

unfoldable pub replay : IdempotentTransferTxParams → Tx TransferTxResult
replay p = do
  existing ← get_idempotency_key_for_update (key_name p)
  fail_if (not (bytes_equal existing.request_hash p.request_hash)) idempotency_conflict
  replayed_result existing

unfoldable pub transfer_under_key :
    IdempotentTransferTxParams → Uuid → Option IdempotencyKey → Tx TransferTxResult
transfer_under_key p correlation none = replay p
transfer_under_key p correlation (some k) = do
  result ← transfer_with_queries p.transfer correlation
  complete_idempotency_key (key_name p) result.transaction.id idempotency_response_status_created
      result
  pure result

unfoldable pub idempotent_transfer_with_queries :
    IdempotentTransferTxParams → Uuid → Tx TransferTxResult
idempotent_transfer_with_queries p correlation = do
  delete_expired_idempotency_key (key_name p)
  reserved ← reserve_key p
  transfer_under_key p correlation reserved

unfoldable pub idempotent_transfer_tx : IdempotentTransferTxParams → Tx TransferTxResult
idempotent_transfer_tx p = do
  fail_if (invalid_key p) invalid_idempotency_key
  correlation ← audit_correlation p.transfer.correlation_id
  catch (exec_tx (idempotent_transfer_with_queries p correlation))
      (audit_transfer_failure p.transfer correlation)
