-- ===== src/Lib.antt =====
-- The store of a retail bank (db/sqlc): accounts, a double-entry ledger, transfers between customers
-- with limits and idempotency keys, deposits and withdrawals, account opening, closing and freezing,
-- reversals and reconciliation, login sessions, beneficiaries, and the e-mails: registration and
-- verification, sending, and the reports of the e-mail provider.
--
-- Base: library names, lists as tables, Go's int64 over the integers, Go's string functions.
-- Models: the rows (models.go), the errors of the store, and the database as a record of tables.
-- Store: `execTx` and the queries as a state monad over a `World` (store.go, db.go). The world holds
--   the database and what the code does not decide: which round trip is refused, which UUIDs and
--   random numbers are drawn, how a UUID is written. Store.Rules is a Hoare logic for it, and
--   Store.Atomic is about `execTx`.
-- Queries: the SQL of account.sql.go, ledger.sql.go, reconciliation.sql.go, session.sql.go,
--   idempotency.sql.go, audit_log.sql.go, user.sql.go, email_job.sql.go,
--   email_delivery_event.sql.go, outbox.sql.go and beneficiary.sql.go as functions on the tables,
--   with rules for those that the proofs use.
-- Banking: the transactions. Audit and Notification are financial_audit.go and
--   financial_notification.go; Posting, Transfer, Idempotency and Movement are transaction_tx.go
--   (`createBalancedTransaction`, `TransferTx`, `IdempotentTransferTx`, `settlementMovementTx`);
--   Opening is account_tx.go and account_number.go (`CreateAccountTx`); Lifecycle is `CloseAccountTx`
--   of account_tx.go and `SetAccountStatusTx` of operator_tx.go; ReversalPlan and Reversal are
--   `ReverseTransactionTx` of operator_tx.go; Reconciliation is reconciliation.go; Reachable
--   puts all of them one after another.
-- Books: the invariant of the ledger's tables, and what each change of the tables does to it.
-- Sessions: session_tx.go, the logins with one session per user and the rotation of refresh tokens.
-- Beneficiaries: beneficiary_tx.go, the accounts that a customer saves to pay to.
-- Emails: Reports is email_delivery_tx.go (`ProcessEmailDeliveryEventTx`); Verification is
--   create_user_tx.go and email_verification_tx.go (registration, replay, verification, requests).
-- Worker: Relay is worker/outbox_relay.go, and Sending is worker/task_send_verify_email.go with the
--   retries of worker/processor.go. The answers of the task queue, of the mailer and of the maker of
--   tokens are parameters.
-- Tests: a small bank, the results at concrete requests, and runs of the operations.
--
-- How the code is read. An operation is a function from a world to a result and a world, one `do`
-- line per statement of the Go code. Each query, begin, commit and rollback is one round trip and
-- may be refused: that stands for a connection that is lost before it, and for constraints and
-- triggers that are not written out. A refused commit is one that did not take place. Written out
-- are the unique constraints on account numbers, transaction ids, references and reversals, and
-- those on sessions, beneficiaries, users and the reports of a webhook, and the audit rows that
-- triggers write of a new e-mail job and of a new outbox event. A row lock is a read, since
-- transactions run one after another. Amounts are integers with the wrap-around of int64 where the
-- Go code computes; bigint columns do not wrap, and an overflow there is a refused round trip. A
-- `jsonb` column holds the value that was encoded, so that decoding it cannot fail. A rolled back
-- transaction gives its sequence numbers back. `clock` is `now()` and `time.Now()`. The loop of
-- `create_account_with_generated_number` runs on the attempts that are left, as the code does;
-- nothing else loops but over lists. The two maps of a reversal are one list of entries.
--
-- The case tables of Unicode, by which `strings.EqualFold` and `lower` of SQL go, are a parameter
-- (LetterCase of Base.Text). The link in the payload of a verification e-mail is kept as its token and
-- its deadline.
--
-- Not modelled: profile updates, the transaction history, the relay's loop and cleanup, the set-up of
-- the task queue, the HTTP interface, tokens, the mailer, metrics, start-up, a commit that takes place
-- although its answer is lost, the audit rows that triggers write of updates, and the web frontend.
pub mod Base
pub mod Models
pub mod Store
pub mod Queries
pub mod Banking
pub mod Beneficiaries
pub mod Emails
pub mod Books
pub mod Sessions
pub mod Worker
pub mod Tests
