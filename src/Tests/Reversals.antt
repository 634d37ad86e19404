-- ===== src/Tests/Reversals.antt =====
-- The reversal of the small bank's deposit, and of a transaction that is reversed already.
use monierave.Base.{
  ◌≡◌, refl, [], ◌∷◌, some, pos, false, find_first, update_where, select, is_empty, neg64, sub64,
  add64, wrap64, ◌+ℤ◌, ◌-ℤ◌, neg, true, is_space, trim_left, trim_right, trim_space, rune_count,
}
use monierave.Models.{reversed}
use monierave.Models.Tables.{Db}
use monierave.Store.Rules.{Runs}
use monierave.Banking.Transfer.Outcome.{SameMoney}
use monierave.Banking.Reversal.{
  ReverseTransactionTxParams, reverse_transaction_tx, notify_each, make_reversal,
  reverse_with_queries,
}
use monierave.Banking.ReversalPlan.{
  source_account, reversal_plan, insert_id, ordered_ids, lock_each, lock_accounts_for_operator,
  any_closed, reverse_balance, reverse_balances, entries,
}
use monierave.Banking.Reversal.Invariant.{Reversed, reverse_transaction_tx-Reversed}
use monierave.Banking.Reversal.Once.{reverse_transaction_tx-refused}
use monierave.Banking.Reversal.Marked.{IsReversed, ReversedOnce, reverse_transaction_tx-outcome}
use monierave.Banking.Reversal.Permanent.{none_yet, one_more, reversed_once_for_good}
use monierave.Banking.Reachable.{reversal, Step-IsConsistent}
use monierave.Store.After.{after}
use monierave.Tests.Data.{
  alice_account, bob_account, sample_db, sample-IsConsistent, sample_deposit,
}
use monierave.Store.{
  pure, raise, lift, query, ◌>>=◌, new_uuid, uuid_hex_text, end_tx, exec_tx, fail_if, on_error,
  catch,
}
use monierave.Queries.Accounts.{get_account_for_update, add_account_balance_internal}
use monierave.Queries.Ledger.{
  transaction_violation, create_banking_transaction, create_ledger_posting,
  mark_banking_transaction_posted, get_banking_transaction_for_update,
  mark_banking_transaction_reversed,
}
use monierave.Queries.Records.{create_audit_log, get_user, create_email_job, create_outbox_event}
use monierave.Banking.Audit.{create_operator_audit}
use monierave.Banking.Notification.{time_now, create_financial_notification}
use monierave.Banking.Posting.{
  posting_total, create_postings, create_balanced_transaction, subtract_account_balance,
}
use monierave.Queries.Reversal.{reversal_sources, list_reversal_source_postings}
use monierave.Banking.Lifecycle.{invalid_action, validate_operator_action, audit_operator_failure}
use monierave.Tests.Scenario.{quiet_world, seen}

abbrev reversal_request : ReverseTransactionTxParams
reversal_request = record {
  transaction_id = 500;
  actor = "operator";
  reason = "counted twice";
  correlation_id = some 900;
}

abbrev reversed_db : Db
reversed_db = record sample_db {
  books = record sample_db.books {
    transactions = record sample_deposit { status = reversed; reversed_at = some 900 } ∷ [];
  };
}

-- A cent was moved on.
abbrev spent_db : Db
spent_db = record sample_db {
  books = record sample_db.books {
    accounts =
        record alice_account { balance = pos 4_999 } ∷ record bob_account { balance = pos 1 } ∷ [];
  };
}

reverse_transaction_tx-outcome_example :
    Runs
      (λ _ d'. SameMoney sample_db d')
      (λ _ d'. ReversedOnce 500 sample_db d')
      (reverse_transaction_tx reversal_request)
      sample_db
reverse_transaction_tx-outcome_example =
    reverse_transaction_tx-outcome reversal_request sample_db sample-IsConsistent

reverse_transaction_tx-Reversed_example :
    Runs
      (λ _ d'. SameMoney sample_db d')
      (λ _ d'.
        Reversed 500
          (reversal_sources 500 sample_db.ledger_accounts sample_db.postings)
          sample_db
          d')
      (reverse_transaction_tx reversal_request)
      sample_db
reverse_transaction_tx-Reversed_example =
    reverse_transaction_tx-Reversed reversal_request sample_db sample-IsConsistent

reverse_transaction_tx-refused_example :
    Runs
      (λ _ d'. SameMoney reversed_db d')
      (λ _ _. ⊥)
      (reverse_transaction_tx reversal_request)
      reversed_db
unfolding find_first
reverse_transaction_tx-refused_example =
    reverse_transaction_tx-refused reversal_request reversed_db refl

abbrev after_reversal : Db
after_reversal = after (reverse_transaction_tx reversal_request) quiet_world sample_db

deposit-IsReversed : IsReversed 500 after_reversal.transactions
unfolding find_first update_where neg64 sub64 add64 wrap64 ◌+ℤ◌ ◌-ℤ◌ neg pure raise lift query ◌>>=◌
    new_uuid uuid_hex_text end_tx exec_tx fail_if on_error catch get_account_for_update
    add_account_balance_internal transaction_violation create_banking_transaction
    create_ledger_posting mark_banking_transaction_posted create_audit_log get_user create_email_job
    create_outbox_event time_now create_financial_notification posting_total create_postings
    create_balanced_transaction subtract_account_balance select is_empty is_space trim_left
    trim_right trim_space rune_count get_banking_transaction_for_update
    mark_banking_transaction_reversed reversal_sources list_reversal_source_postings
    create_operator_audit invalid_action validate_operator_action audit_operator_failure
    source_account reversal_plan insert_id ordered_ids lock_each lock_accounts_for_operator
    any_closed reverse_balance reverse_balances entries notify_each make_reversal
    reverse_with_queries reverse_transaction_tx
deposit-IsReversed = record {
  row = record sample_deposit { status = reversed; reversed_at = some sample_db.clock };
  found = refl;
  mark = refl;
}

reversed_once_for_good_example :
    IsReversed 500
      (after (reverse_transaction_tx reversal_request) quiet_world after_reversal).transactions
    × Runs
        (λ _ x.
          SameMoney (after (reverse_transaction_tx reversal_request) quiet_world after_reversal) x)
        (λ _ _. ⊥)
        (reverse_transaction_tx reversal_request)
        (after (reverse_transaction_tx reversal_request) quiet_world after_reversal)
reversed_once_for_good_example =
    reversed_once_for_good reversal_request after_reversal
      (after (reverse_transaction_tx reversal_request) quiet_world after_reversal)
      (Step-IsConsistent sample_db after_reversal sample-IsConsistent
        (reversal reversal_request quiet_world))
      deposit-IsReversed
      (one_more after_reversal _ none_yet (reversal reversal_request quiet_world))

-- The deposit is taken back; with the money gone from alice's account in the meantime, it is not.
reversal_runs :
    (seen (reverse_transaction_tx reversal_request quiet_world) ≡ (true, pos 0 ∷ pos 0 ∷ []))
    × (seen (reverse_transaction_tx reversal_request (record quiet_world { db = spent_db }))
        ≡ (false, pos 4_999 ∷ pos 1 ∷ []))
unfolding find_first update_where neg64 sub64 add64 wrap64 ◌+ℤ◌ ◌-ℤ◌ neg pure raise lift query ◌>>=◌
    new_uuid uuid_hex_text end_tx exec_tx fail_if on_error catch get_account_for_update
    add_account_balance_internal transaction_violation create_banking_transaction
    create_ledger_posting mark_banking_transaction_posted create_audit_log get_user create_email_job
    create_outbox_event time_now create_financial_notification posting_total create_postings
    create_balanced_transaction subtract_account_balance select is_empty is_space trim_left
    trim_right trim_space rune_count get_banking_transaction_for_update
    mark_banking_transaction_reversed reversal_sources list_reversal_source_postings
    create_operator_audit invalid_action validate_operator_action audit_operator_failure
    source_account reversal_plan insert_id ordered_ids lock_each lock_accounts_for_operator
    any_closed reverse_balance reverse_balances entries notify_each make_reversal
    reverse_with_queries reverse_transaction_tx
reversal_runs = (refl, refl)
