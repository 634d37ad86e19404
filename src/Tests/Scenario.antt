-- ===== src/Tests/Scenario.antt =====
-- The small bank at work: what the operations compute on concrete requests.
use monierave.Base.{
  bytes_equal, arith, ◌≡◌, refl, List, [], ◌∷◌, none, some, ℤ, pos, ◌+◌, find_first, update_where,
  select, is_empty, byte_count, neg64, sub64, add64, wrap64, ◌+ℤ◌, ◌-ℤ◌, neg, ◌==◌, if◌then◌else◌,
  Bool, true, false,
}
use monierave.Models.Tables.{Db}
use monierave.Models.{Account, connection, TransferTxResult}
use monierave.Store.{
  World, Result, ok, err, pure, raise, lift, query, ◌>>=◌, new_uuid, uuid_hex_text, end_tx, exec_tx,
  fail_if, on_error, catch,
}
use monierave.Queries.Accounts.{
  get_account_by_public_id, get_account_by_account_number, get_account_for_update,
  add_account_balance_internal,
}
use monierave.Queries.Ledger.{
  transaction_violation, create_banking_transaction, create_ledger_posting,
  get_customer_ledger_account, mark_banking_transaction_posted, daily_outgoing_total,
  get_daily_outgoing_transfer_total,
}
use monierave.Queries.Records.{create_audit_log, get_user, create_email_job, create_outbox_event}
use monierave.Queries.Idempotency.{
  delete_expired_idempotency_key, create_idempotency_key, get_idempotency_key_for_update,
  complete_idempotency_key,
}
use monierave.Banking.Audit.{create_financial_audit, audit_correlation}
use monierave.Banking.Notification.{time_now, create_financial_notification}
use monierave.Banking.Posting.{
  posting_total, create_postings, create_balanced_transaction, customer_ledger_account,
  subtract_account_balance,
}
use monierave.Banking.Transfer.{
  post_transfer, transfer_limits, lock_transfer_accounts, load_and_lock_transfer_accounts,
  transfer_with_queries, audit_transfer_failure, record_transfer_failure, transfer_failure_event,
  transfer_notification_failure_reason, transfer_tx,
}
use monierave.Banking.Idempotency.{
  none_for_no_rows, reserve_key, replayed_result, replay, transfer_under_key,
  idempotent_transfer_with_queries, idempotent_transfer_tx,
}
use monierave.Tests.Data.{sample_db, sample-IsConsistent}
use monierave.Store.Rules.{Runs}
use monierave.Store.Atomic.{Infrastructure}
use monierave.Banking.Transfer.Outcome.{SameMoney}
use monierave.Banking.Idempotency.Retry.{idempotent_transfer_tx-retry}
use monierave.Tests.Requests.{transfer_request, keyed_request, stored_result}

abbrev pub quiet_world : World
quiet_world = record {
  db = sample_db;
  trips = 0;
  faults = λ n. none;
  drawn = 0;
  uuids = λ n. 1_000 + n;
  numbers = λ n. some n;
  uuid_hex = λ u. "HEX";
}

abbrev balances : List Account → List ℤ
balances [] = []
balances (a ∷ rows) = a.balance ∷ balances rows

-- Whether a run returned a value, and the balances that it left.
abbrev pub seen : {A : Type 0} → Result A × World → Bool × List ℤ
seen (ok a, w) = (true, balances w.db.accounts)
seen (err e, w) = (false, balances w.db.accounts)

abbrev result_or : {A : Type 0} → A → Result A × World → A
result_or a (ok b, w) = b
result_or a (err e, w) = a

abbrev returned : {A : Type 0} → Result A × World → Bool
returned (ok b, w) = true
returned (err e, w) = false

result_or-returned :
    {A : Type 0} (a : A) (x : Result A × World) → returned x ≡ true → x ≡ (ok (result_or a x), x.1)
result_or-returned a (ok b, w) h = refl
result_or-returned a (err e, w) h = cc

abbrev first_result : TransferTxResult
first_result = result_or stored_result (idempotent_transfer_tx keyed_request quiet_world)

abbrev first_world : World
first_world = (idempotent_transfer_tx keyed_request quiet_world).1

-- A transfer; the same with its commit refused, which undoes it; a request under a key, and its retry
-- in the database that the request left, which moves no more money.
runs :
    (seen (transfer_tx transfer_request quiet_world) ≡ (true, pos 3_800 ∷ pos 1_200 ∷ []))
    × (seen (
          transfer_tx transfer_request
            (record quiet_world { faults = λ n. if n == 22 then some connection else none }))
        ≡ (false, pos 5_000 ∷ pos 0 ∷ []))
    × (seen (idempotent_transfer_tx keyed_request first_world) ≡ (true, pos 3_800 ∷ pos 1_200 ∷ []))
    × (returned (idempotent_transfer_tx keyed_request quiet_world) ≡ true)
    × (first_result.replayed ≡ false)
    × (first_world.db.clock ≡ 1_000)
unfolding find_first update_where neg64 sub64 add64 wrap64 ◌+ℤ◌ ◌-ℤ◌ neg pure raise lift query ◌>>=◌
    new_uuid uuid_hex_text end_tx exec_tx fail_if on_error catch get_account_by_public_id
    get_account_by_account_number get_account_for_update add_account_balance_internal
    transaction_violation create_banking_transaction create_ledger_posting
    get_customer_ledger_account mark_banking_transaction_posted daily_outgoing_total
    get_daily_outgoing_transfer_total create_audit_log get_user create_email_job create_outbox_event
    create_financial_audit audit_correlation time_now create_financial_notification posting_total
    create_postings create_balanced_transaction customer_ledger_account subtract_account_balance
    transfer_limits lock_transfer_accounts load_and_lock_transfer_accounts post_transfer
    transfer_with_queries audit_transfer_failure record_transfer_failure transfer_failure_event
    transfer_notification_failure_reason transfer_tx select is_empty byte_count
    delete_expired_idempotency_key create_idempotency_key get_idempotency_key_for_update
    complete_idempotency_key bytes_equal none_for_no_rows reserve_key replayed_result replay
    transfer_under_key idempotent_transfer_with_queries idempotent_transfer_tx
runs = (refl, refl, refl, refl, refl, refl)

-- The retry an hour later.
abbrev an_hour_later : Db
an_hour_later = record first_world.db { clock = 3_600_001_000 }

idempotent_transfer_tx-retry_example :
    Runs
      (λ e x. Infrastructure e × SameMoney an_hour_later x)
      (λ r' x. (r' ≡ record first_result { replayed = true }) × (x.books ≡ an_hour_later.books))
      (idempotent_transfer_tx keyed_request)
      an_hour_later
idempotent_transfer_tx-retry_example =
    let (_, _, _, came_back, fresh, _) = runs in
    idempotent_transfer_tx-retry keyed_request quiet_world first_world first_result an_hour_later
      sample-IsConsistent
      (result_or-returned stored_result (idempotent_transfer_tx keyed_request quiet_world)
        came_back)
      fresh refl (omega arith)
