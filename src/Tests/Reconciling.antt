-- ===== src/Tests/Reconciling.antt =====
-- Reconciliations of the small bank, as it is and with a balance that drifted.
use monierave.Base.{◌≡◌, true, [], ◌∷◌, none, some, pos}
use monierave.Models.Tables.{Db}
use monierave.Store.Rules.{Runs}
use monierave.Banking.Reconciliation.{ReconciliationParams, reconcile}
use monierave.Banking.Reconciliation.Verdict.{Reported, reconcile-Reported, reconcile-IsConsistent}
use monierave.Tests.Data.{alice_account, bob_account, sample_db, sample-IsConsistent}

abbrev everything : ReconciliationParams
everything = record { account_public_id = none; actor = "operator" }

abbrev alice_only : ReconciliationParams
alice_only = record { account_public_id = some alice_account.public_id; actor = "operator" }

abbrev drifted_db : Db
drifted_db = record sample_db {
  books = record sample_db.books {
    accounts = record alice_account { balance = pos 1 } ∷ bob_account ∷ [];
  };
}

reconcile-Reported_example :
    Runs
      (λ _ d'. d' ≡ drifted_db)
      (Reported everything drifted_db)
      (reconcile everything)
      drifted_db
reconcile-Reported_example = reconcile-Reported everything drifted_db

reconcile-IsConsistent_example :
    Runs
      (λ _ d'. d' ≡ sample_db)
      (λ r d'. (r.consistent ≡ true) × (r.issues ≡ []) × (d'.books ≡ sample_db.books))
      (reconcile alice_only)
      sample_db
reconcile-IsConsistent_example = reconcile-IsConsistent alice_only sample_db sample-IsConsistent
