-- ===== src/Banking/ReversalPlan.antt =====
-- The parts of `ReverseTransactionTx` and `lockAccountsForOperator` (db/sqlc/operator_tx.go) on the
-- source postings: the opposite postings, the locked accounts, and the balances given back.

use monierave.Base.{
  ℕ, String, List, [], ◌∷◌, ◌++◌, Bool, false, ◌||◌, not, none, some, ℤ, pos, ltb, ltb_ℤ, ◌==◌,
  neg64, find_first, if◌then◌else◌, select,
}
use monierave.Models.{
  Account, is_closed, is_customer, Error, missing_customer_account, insufficient_balance,
  reversal_insufficient_funds,
}
use monierave.Store.{Tx, Result, ok, err, pure, ◌>>=◌, on_error}
use monierave.Queries.Accounts.{get_account_for_update, add_account_balance_internal}
use monierave.Queries.Reversal.{ReversalSource}
use monierave.Banking.Posting.{PostingParams, subtract_account_balance}

-- The customer's account of a source posting, if it has one.
unfoldable pub source_account : ReversalSource → Result (List ℕ)
source_account s =
    if is_customer s.kind
    then (elim s.customer_account_id [
      | none ↦ err missing_customer_account
      | some id ↦ ok (id ∷ [])
    ])
    else ok []

abbrev pub opposite_posting : ReversalSource → PostingParams
opposite_posting s = record { ledger_account_id = s.ledger_account_id; amount = neg64 s.amount }

-- The loop over the source postings: the opposite postings, and the customers' accounts.
unfoldable pub reversal_plan : List ReversalSource → Result (List PostingParams × List ℕ)
unfolding source_account
reversal_plan [] = ok ([], [])
reversal_plan (s ∷ ss) =
    let rest = reversal_plan ss in
    elim (source_account s) [
      | err e ↦ err e
      | ok ids ↦ elim rest [
        | err e ↦ err e
        | ok (postings, more) ↦ ok (opposite_posting s ∷ postings, ids ++ more)
      ]
    ]

-- A set of ids, kept in increasing order.
unfoldable pub insert_id : ℕ → List ℕ → List ℕ
insert_id id [] = id ∷ []
insert_id id (x ∷ xs) =
    let rest = insert_id id xs in
    if id == x then x ∷ xs else if ltb id x then id ∷ x ∷ xs else x ∷ rest

unfoldable pub ordered_ids : List ℕ → List ℕ
unfolding insert_id
ordered_ids [] = []
ordered_ids (id ∷ ids) = insert_id id (ordered_ids ids)

unfoldable pub lock_each : List ℕ → Tx (List Account)
lock_each [] = pure []
lock_each (id ∷ ids) = do
  account ← get_account_for_update id
  others ← lock_each ids
  pure (account ∷ others)

unfoldable pub lock_accounts_for_operator : List ℕ → Tx (List Account × List ℕ)
lock_accounts_for_operator ids = do
  accounts ← lock_each (ordered_ids ids)
  pure (accounts, ordered_ids ids)

unfoldable pub any_closed : List Account → Bool
any_closed [] = false
any_closed (a ∷ rows) = is_closed a.status || any_closed rows

-- An entry of `updatedAccounts` with its entry of `reversalDirections`.
pub record Updated : Type 0 where
  pub id : ℕ
  pub account : Account
  pub direction : String

-- A map from ids: a later entry takes the place of an earlier one.
abbrev pub put : Updated → List Updated → List Updated
put u us = u ∷ select (λ x. not (x.id == u.id)) us

abbrev pub funds_missing : Error → Error
funds_missing insufficient_balance = reversal_insufficient_funds
funds_missing e = e

unfoldable pub reverse_balance : ℕ → ℤ → Tx Account
reverse_balance id delta =
    if ltb_ℤ delta (pos 0)
    then on_error funds_missing (subtract_account_balance id (neg64 delta))
    else add_account_balance_internal id delta

-- The loop that gives the customers' balances back.
unfoldable pub reverse_balances : List ReversalSource → List Updated → Tx (List Updated)
unfolding reverse_balance
reverse_balances [] updated = pure updated
reverse_balances (s ∷ ss) updated = elim s.customer_account_id [
  | none ↦ reverse_balances ss updated
  | some id ↦
      if is_customer s.kind
      then (do
        account ← reverse_balance id (neg64 s.amount)
        reverse_balances ss (
            put
              (record {
                id = id;
                account = account;
                direction = if ltb_ℤ (neg64 s.amount) (pos 0) then "outgoing" else "incoming";
              })
              updated))
      else reverse_balances ss updated
]

-- The entries of the ids, in their order. Every id has an entry: it came from a customer's posting.
unfoldable pub entries : List ℕ → List Updated → List Updated
entries [] updated = []
entries (id ∷ ids) updated =
    let rest = entries ids updated in
    elim (find_first (λ x. x.id == id) updated) [ none ↦ rest | some u ↦ u ∷ rest ]

abbrev pub accounts_of : List Updated → List Account
accounts_of [] = []
accounts_of (u ∷ us) = u.account ∷ accounts_of us
