-- ===== src/Tests/Success.antt =====
-- A transfer of the small bank that nothing but the outside can make fail.
use monierave.Base.{
  ◌≡◌, refl, false, some, pos, ltb_ℤ, sub64, wrap64, ◌-ℤ◌, ◌+ℤ◌, arith, subst, find_first, some_eq,
  neg,
}
use monierave.Models.{LedgerAccount}
use monierave.Store.Rules.{Runs}
use monierave.Store.Atomic.{Infrastructure}
use monierave.Books.Invariant.{IsConsistent}
use monierave.Queries.Ledger.{customer_ledger, daily_outgoing_total}
use monierave.Banking.Transfer.{transfer_tx, transfer_limits}
use monierave.Banking.Transfer.Effect.{TransferEffect}
use monierave.Banking.Transfer.Outcome.{SameMoney}
use monierave.Banking.Transfer.Permitted.{Permitted}
use monierave.Banking.Transfer.Success.{transfer_tx-Permitted}
use monierave.Tests.Data.{alice_account, bob_account, sample_db, sample-IsConsistent}
use monierave.Tests.Requests.{transfer_request}

day_open :
    (l : LedgerAccount)
    → customer_ledger 1 sample_db.ledger_accounts ≡ some l
    → ltb_ℤ
        (sub64 (pos 2_500_000) (pos 1_200))
        (daily_outgoing_total l.id sample_db.clock sample_db.transactions sample_db.postings)
      ≡ false
unfolding find_first daily_outgoing_total sub64 wrap64 ◌-ℤ◌ ◌+ℤ◌ neg
day_open l found =
    subst
      (λ (m : LedgerAccount).
        ltb_ℤ (sub64 (pos 2_500_000) (pos 1_200))
          (daily_outgoing_total m.id sample_db.clock sample_db.transactions sample_db.postings)
        ≡ false)
      (some_eq found) refl

sample-Permitted : Permitted transfer_request sample_db
unfolding find_first transfer_limits
sample-Permitted = record {
  from = alice_account;
  to = bob_account;
  from_row = refl;
  to_row = refl;
  distinct = λ e. omega (arith, e);
  owned = refl;
  from_currency = refl;
  to_currency = refl;
  not_frozen = refl;
  from_open = refl;
  to_open = refl;
  positive = refl;
  funds = omega arith;
  per_transfer_limit = pos 1_000_000;
  daily_limit = pos 2_500_000;
  limits = refl;
  within_limit = refl;
  within_day = day_open;
  from_user = _;
  from_user_row = refl;
  to_user = _;
  to_user_row = refl;
}

transfer_tx-Permitted_example :
    Runs
      (λ e d'. Infrastructure e × SameMoney sample_db d')
      (λ r d'. TransferEffect transfer_request sample_db r d' × IsConsistent d'.books)
      (transfer_tx transfer_request)
      sample_db
transfer_tx-Permitted_example =
    transfer_tx-Permitted transfer_request sample_db sample-IsConsistent sample-Permitted
