-- ===== src/Tests/Runs.antt =====
-- Each result at a concrete request on the small bank.
use monierave.Base.{
  bytes_equal, ◌≡◌, refl, true, false, ◌⊎◌, ◌≢◌, inl, arith, ◌+◌, find_first, is_empty, byte_count,
  if◌then◌else◌, ◌==◌, some, none,
}
use monierave.Models.{idempotency_conflict, connection}
use monierave.Models.Tables.{Db, opening_books}
use monierave.Store.{World}
use monierave.Store.After.{after}
use monierave.Store.Rules.{Runs, AnyError}
use monierave.Store.Atomic.{Infrastructure, Rejection}
use monierave.Books.Invariant.{IsConsistent}
use monierave.Banking.Transfer.{transfer_tx}
use monierave.Banking.Transfer.Effect.{TransferEffect}
use monierave.Banking.Transfer.Outcome.{SameMoney, transfer_tx-outcome}
use monierave.Banking.Transfer.Limits.{WithinLimits, transfer_tx-WithinLimits}
use monierave.Banking.Transfer.Balances.{transfer_tx-refused}
use monierave.Banking.Idempotency.{idempotent_transfer_tx, invalid_key}
use monierave.Banking.Idempotency.Outcome.{Replays, Stores, idempotent_transfer_tx-outcome}
use monierave.Banking.Idempotency.Retry.{
  Taken, idempotent_transfer_tx-replay, idempotent_transfer_tx-conflict,
}
use monierave.Banking.Movement.{settlement_movement_tx, actor_or_default}
use monierave.Banking.Movement.Effect.{MovementEffect}
use monierave.Banking.Movement.Invariant.{settlement_movement_tx-outcome}
use monierave.Banking.Opening.{create_account_tx}
use monierave.Banking.Opening.Outcome.{Opened, create_account_tx-outcome}
use monierave.Banking.Lifecycle.{close_account_tx}
use monierave.Banking.Lifecycle.Closing.{Closed, close_account_tx-outcome}
use monierave.Banking.Reachable.{movement, opening, start, next, Reachable-IsConsistent}
use monierave.Tests.Data.{alice_account, sample_db, sample-IsConsistent}
use monierave.Tests.Requests.{
  transfer_request, keyed_request, keyed_db, stored_key, stored_result, conflicting_db,
  conflicting_key, deposit_request, opening_request, closing_request, stolen_request,
}

transfer_tx-outcome_example :
    Runs
      (λ _ d'. SameMoney sample_db d')
      (λ r d'. TransferEffect transfer_request sample_db r d' × IsConsistent d'.books)
      (transfer_tx transfer_request)
      sample_db
transfer_tx-outcome_example = transfer_tx-outcome transfer_request sample_db sample-IsConsistent

transfer_tx-WithinLimits_example :
    Runs AnyError
      (λ r d'. WithinLimits transfer_request sample_db r d')
      (transfer_tx transfer_request)
      sample_db
transfer_tx-WithinLimits_example =
    transfer_tx-WithinLimits transfer_request sample_db sample-IsConsistent

alice_is_not_mallory : alice_account.owner ≢ stolen_request.username
alice_is_not_mallory e = cc

transfer_tx-refused_example :
    Runs (λ _ d'. SameMoney sample_db d') (λ _ _. ⊥) (transfer_tx stolen_request) sample_db
unfolding find_first
transfer_tx-refused_example =
    transfer_tx-refused stolen_request sample_db alice_account sample-IsConsistent refl
      (inl alice_is_not_mallory)

idempotent_transfer_tx-outcome_example :
    Runs
      (λ _ d'. SameMoney sample_db d')
      (λ r d'.
        (invalid_key keyed_request ≡ false)
        × (Replays keyed_request sample_db r d' ⊎ Stores keyed_request sample_db r d')
        × IsConsistent d'.books)
      (idempotent_transfer_tx keyed_request)
      sample_db
idempotent_transfer_tx-outcome_example =
    idempotent_transfer_tx-outcome keyed_request sample_db sample-IsConsistent

stored-Taken : Taken keyed_request keyed_db stored_key
unfolding find_first is_empty byte_count
stored-Taken = record { valid = refl; found = refl; row_live = refl }

conflicting-Taken : Taken keyed_request conflicting_db conflicting_key
unfolding find_first is_empty byte_count
conflicting-Taken = record { valid = refl; found = refl; row_live = refl }

idempotent_transfer_tx-replay_example :
    Runs
      (λ e d'. Infrastructure e × SameMoney keyed_db d')
      (λ r' d'. (r' ≡ record stored_result { replayed = true }) × (d'.books ≡ keyed_db.books))
      (idempotent_transfer_tx keyed_request)
      keyed_db
idempotent_transfer_tx-replay_example =
    idempotent_transfer_tx-replay keyed_request keyed_db stored_key 600 stored_result stored-Taken
      refl refl refl

idempotent_transfer_tx-conflict_example :
    Runs
      (λ e d'. Rejection idempotency_conflict e × SameMoney conflicting_db d')
      (λ _ _. ⊥)
      (idempotent_transfer_tx keyed_request)
      conflicting_db
unfolding bytes_equal
idempotent_transfer_tx-conflict_example =
    idempotent_transfer_tx-conflict keyed_request conflicting_db conflicting_key conflicting-Taken
      refl

settlement_movement_tx-outcome_example :
    Runs
      (λ _ d'. d' ≡ sample_db)
      (λ r d'.
        MovementEffect deposit_request (actor_or_default deposit_request.actor) sample_db r d'
        × IsConsistent d'.books)
      (settlement_movement_tx deposit_request)
      sample_db
settlement_movement_tx-outcome_example =
    settlement_movement_tx-outcome deposit_request sample_db sample-IsConsistent (omega arith)

create_account_tx-outcome_example :
    Runs
      (λ _ d'. d' ≡ sample_db)
      (Opened opening_request.owner opening_request.currency sample_db)
      (create_account_tx opening_request)
      sample_db
create_account_tx-outcome_example =
    create_account_tx-outcome opening_request sample_db sample-IsConsistent

close_account_tx-outcome_example :
    Runs
      (λ _ d'. d' ≡ sample_db)
      (λ a d'. Closed closing_request sample_db a d' × IsConsistent d'.books)
      (close_account_tx closing_request)
      sample_db
close_account_tx-outcome_example =
    close_account_tx-outcome closing_request sample_db sample-IsConsistent

abbrev fresh_bank : Db
fresh_bank = record sample_db { books = opening_books }

-- Every round trip succeeds but the eighth.
abbrev outside_world : World
outside_world = record {
  db = fresh_bank;
  trips = 0;
  faults = λ n. if n == 7 then some connection else none;
  drawn = 0;
  uuids = λ n. 1_000 + n;
  numbers = λ n. some (77 + n);
  uuid_hex = λ u. "HEX";
}

Reachable-IsConsistent_example :
    IsConsistent
      (after
        (settlement_movement_tx deposit_request)
        outside_world
        (after (create_account_tx opening_request) outside_world fresh_bank)).books
Reachable-IsConsistent_example =
    Reachable-IsConsistent
      (after (settlement_movement_tx deposit_request) outside_world
        (after (create_account_tx opening_request) outside_world fresh_bank))
      (next (after (create_account_tx opening_request) outside_world fresh_bank) _
        (next fresh_bank _ (start fresh_bank refl) (opening opening_request outside_world))
        (movement deposit_request outside_world (omega arith)))
