-- ===== src/Queries/Reversal.antt =====
-- ListReversalSourcePostings (db/sqlc/ledger.sql.go): the postings of a transaction, each with the
-- ledger account that it is on. Postings stand in the order of their ids.
use monierave.Base.{ℕ, List, [], ◌∷◌, Option, none, some, ℤ, ◌==◌, if◌then◌else◌}
use monierave.Models.{Uuid, LedgerAccount, LedgerKind, LedgerPosting}
use monierave.Store.{Tx, query, ok}
use monierave.Queries.Ledger.{ledger_by_id}

-- ListReversalSourcePostingsRow
pub record ReversalSource : Type 0 where
  pub ledger_account_id : ℕ
  pub amount : ℤ
  pub kind : LedgerKind
  pub customer_account_id : Option ℕ

abbrev pub source_of : LedgerPosting → LedgerAccount → ReversalSource
source_of p l = record {
  ledger_account_id = p.ledger_account_id;
  amount = p.amount;
  kind = l.kind;
  customer_account_id = l.customer_account_id;
}

-- An inner join: a posting without its ledger account gives no row.
unfoldable pub reversal_sources :
    Uuid → List LedgerAccount → List LedgerPosting → List ReversalSource
reversal_sources u ledgers [] = []
reversal_sources u ledgers (p ∷ ps) =
    let rest = reversal_sources u ledgers ps in
    if p.transaction_id == u
    then (elim (ledger_by_id p.ledger_account_id ledgers) [
      | none ↦ rest
      | some l ↦ source_of p l ∷ rest
    ])
    else rest

unfoldable pub list_reversal_source_postings : Uuid → Tx (List ReversalSource)
list_reversal_source_postings u =
    query (λ d. ok (reversal_sources u d.ledger_accounts d.postings, d))
