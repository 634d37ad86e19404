-- ===== src/Models/Tables.antt =====
-- The database: the ledger's tables with their sequences, and the tables beside them. `clock` is
-- what `now()` returns.
use monierave.Base.{ℕ, List, [], ◌∷◌, none, some}
use monierave.Models.Banking.{
  Time, Account, LedgerAccount, BankingTransaction, LedgerPosting, settlement,
}
use monierave.Models.Sessions.{Session}
use monierave.Models.Beneficiaries.{Beneficiary}
use monierave.Models.Records.{
  AuditLog, User, EmailJob, EmailDeliveryEvent, OutboxEvent, IdempotencyKey,
}

pub record Books : Type 0 where
  pub accounts : List Account
  pub ledger_accounts : List LedgerAccount
  pub transactions : List BankingTransaction
  pub postings : List LedgerPosting
  pub next_account_id : ℕ
  pub next_ledger_id : ℕ
  pub next_posting_id : ℕ

pub record Db : Type 0 where
  pub books : Books
  pub open books use *
  pub users : List User
  pub audit_logs : List AuditLog
  pub next_audit_id : ℕ
  pub email_jobs : List EmailJob
  pub email_delivery_events : List EmailDeliveryEvent
  pub outbox_events : List OutboxEvent
  pub idempotency_keys : List IdempotencyKey
  pub next_key_id : ℕ
  pub sessions : List Session
  pub beneficiaries : List Beneficiary
  pub clock : Time

-- The tables that db/migration/000014_double_entry_ledger.up.sql leaves on an empty database: the
-- two settlement accounts.
abbrev pub opening_books : Books
opening_books = record {
  accounts = [];
  ledger_accounts =
      record {
        id = 1;
        public_id = 1;
        customer_account_id = none;
        code = some "settlement:USD";
        kind = settlement;
        currency = "USD";
        created_at = 0;
      }
      ∷ record {
        id = 2;
        public_id = 2;
        customer_account_id = none;
        code = some "settlement:EUR";
        kind = settlement;
        currency = "EUR";
        created_at = 0;
      }
      ∷ [];
  transactions = [];
  postings = [];
  next_account_id = 1;
  next_ledger_id = 3;
  next_posting_id = 1;
}
