-- ===== src/Queries/Accounts.antt =====
-- The queries on `accounts` (db/sqlc/account.sql.go), with a rule for each.
use monierave.Base.{
  ℕ, suc, ◌≡◌, refl, String, List, [], ◌∷◌, ◌++◌, Bool, ◌&&◌, Option, none, some, ℤ, pos, ◌+ℤ◌,
  leb_ℤ, ◌==ℤ◌, ◌==◌, str_eq, not, find_first, update_where,
}
use monierave.Models.{
  Uuid, Time, Account, AccountStatus, active, closed, is_closed, Error, no_rows, db_fault,
  constraint,
}
use monierave.Models.Tables.{Db}
use monierave.Store.{Tx, query, one, ok, err}
use monierave.Store.Rules.{Runs, Faulty, query_rule, Answer, Answer-one}

abbrev pub has_id : ℕ → Account → Bool
has_id id a = a.id == id

abbrev pub account_by_id : ℕ → List Account → Option Account
account_by_id id = find_first (has_id id)

abbrev pub account_by_public_id : Uuid → List Account → Option Account
account_by_public_id u = find_first (λ a. a.public_id == u)

abbrev pub account_by_number : String → List Account → Option Account
account_by_number n = find_first (λ a. str_eq a.account_number n)

abbrev pub with_accounts : Db → List Account → Db
with_accounts d rows = record d { books = record d.books { accounts = rows } }

unfoldable pub get_account_by_public_id : Uuid → Tx Account
get_account_by_public_id u = query (λ d. one (account_by_public_id u d.accounts) (λ a. (a, d)))

unfoldable pub get_account_by_public_id_for_update : Uuid → Tx Account
get_account_by_public_id_for_update u =
    query (λ d. one (account_by_public_id u d.accounts) (λ a. (a, d)))

unfoldable pub get_account_by_account_number : String → Tx Account
get_account_by_account_number n = query (λ d. one (account_by_number n d.accounts) (λ a. (a, d)))

unfoldable pub get_account_for_update : ℕ → Tx Account
get_account_for_update id = query (λ d. one (account_by_id id d.accounts) (λ a. (a, d)))

-- SET balance = balance + $1, updated_at = now()
abbrev pub credited : ℤ → Time → Account → Account
credited amount now a = record a { balance = a.balance +ℤ amount; updated_at = now }

-- WHERE id = $2 AND balance + $1 >= 0
abbrev pub covers : ℕ → ℤ → Account → Bool
covers id amount a = a.id == id && leb_ℤ (pos 0) (a.balance +ℤ amount)

unfoldable pub add_account_balance_internal : ℕ → ℤ → Tx Account
add_account_balance_internal id amount = query (λ d.
    one (find_first (covers id amount) d.accounts) (λ a. (
      credited amount d.clock a,
      with_accounts d (update_where (covers id amount) (credited amount d.clock) d.accounts),
    )))

-- WHERE id = $1 AND balance = 0 AND status <> 'closed'
abbrev pub closable : ℕ → Account → Bool
closable id a = a.id == id && a.balance ==ℤ pos 0 && not (is_closed a.status)

abbrev pub as_closed : Time → Account → Account
as_closed now a = record a { status = closed; closed_at = some now; updated_at = now }

unfoldable pub close_account : ℕ → Tx Account
close_account id = query (λ d. one (find_first (closable id) d.accounts) (λ a. (
  as_closed d.clock a,
  with_accounts d (update_where (closable id) (as_closed d.clock) d.accounts),
)))

-- WHERE id = $1 AND $2 IN ('active', 'frozen')
abbrev pub settable : ℕ → AccountStatus → Account → Bool
settable id s a = a.id == id && not (is_closed s)

abbrev pub with_status : AccountStatus → Time → Account → Account
with_status s now a = record a { status = s; closed_at = none; updated_at = now }

unfoldable pub set_account_status : ℕ → AccountStatus → Tx Account
set_account_status id s = query (λ d. one (find_first (settable id s) d.accounts) (λ a. (
  with_status s d.clock a,
  with_accounts d (update_where (settable id s) (with_status s d.clock) d.accounts),
)))

-- CreateAccountParams
pub record CreateAccountParams : Type 0 where
  pub owner : String
  pub currency : String
  pub account_number : String

-- The row that the INSERT makes, with the schema's defaults; `u` is the drawn public id.
abbrev pub new_account : CreateAccountParams → Uuid → Db → Account
new_account p u d = record {
  id = d.next_account_id;
  owner = p.owner;
  balance = pos 0;
  currency = p.currency;
  created_at = d.clock;
  public_id = u;
  status = active;
  updated_at = d.clock;
  closed_at = none;
  account_number = p.account_number;
}

abbrev pub with_account : Account → Db → Db
with_account a d = record d {
  books = record d.books {
    accounts = d.accounts ++ a ∷ [];
    next_account_id = suc d.next_account_id;
  };
}

-- accounts_account_number_key
unfoldable pub create_account : CreateAccountParams → Uuid → Tx Account
create_account p u = query (λ d. elim (account_by_number p.account_number d.accounts) [
  | some a ↦ err (db_fault (constraint "accounts_account_number_key"))
  | none ↦ ok (new_account p u d, with_account (new_account p u d) d)
])

module _ {E : Error → Db → Type 0} {Q : Account → Db → Type 0} {d : Db} (fault : Faulty E) where
  pub get_account_by_public_id_rule :
      (u : Uuid)
      → (account_by_public_id u d.accounts ≡ none → E no_rows d)
      → ((a : Account) → account_by_public_id u d.accounts ≡ some a → Q a d)
      → Runs E Q (get_account_by_public_id u) d
  unfolding get_account_by_public_id
  get_account_by_public_id_rule u missing found =
      query_rule _ fault (Answer-one E Q d (account_by_public_id u d.accounts) _ missing found)

  pub get_account_by_public_id_for_update_rule :
      (u : Uuid)
      → (account_by_public_id u d.accounts ≡ none → E no_rows d)
      → ((a : Account) → account_by_public_id u d.accounts ≡ some a → Q a d)
      → Runs E Q (get_account_by_public_id_for_update u) d
  unfolding get_account_by_public_id_for_update
  get_account_by_public_id_for_update_rule u missing found =
      query_rule _ fault (Answer-one E Q d (account_by_public_id u d.accounts) _ missing found)

  pub get_account_by_account_number_rule :
      (n : String)
      → (account_by_number n d.accounts ≡ none → E no_rows d)
      → ((a : Account) → account_by_number n d.accounts ≡ some a → Q a d)
      → Runs E Q (get_account_by_account_number n) d
  unfolding get_account_by_account_number
  get_account_by_account_number_rule n missing found =
      query_rule _ fault (Answer-one E Q d (account_by_number n d.accounts) _ missing found)

  pub get_account_for_update_rule :
      (id : ℕ)
      → (account_by_id id d.accounts ≡ none → E no_rows d)
      → ((a : Account) → account_by_id id d.accounts ≡ some a → Q a d)
      → Runs E Q (get_account_for_update id) d
  unfolding get_account_for_update
  get_account_for_update_rule id missing found =
      query_rule _ fault (Answer-one E Q d (account_by_id id d.accounts) _ missing found)

  pub add_account_balance_internal_rule :
      (id : ℕ) (amount : ℤ)
      → (find_first (covers id amount) d.accounts ≡ none → E no_rows d)
      → ((a : Account)
          → find_first (covers id amount) d.accounts ≡ some a
          → Q (credited amount d.clock a) (
              with_accounts d
                (update_where (covers id amount) (credited amount d.clock) d.accounts)))
      → Runs E Q (add_account_balance_internal id amount) d
  unfolding add_account_balance_internal
  add_account_balance_internal_rule id amount missing found =
      query_rule _ fault
        (Answer-one E Q d (find_first (covers id amount) d.accounts) _ missing found)

  pub close_account_rule :
      (id : ℕ)
      → (find_first (closable id) d.accounts ≡ none → E no_rows d)
      → ((a : Account)
          → find_first (closable id) d.accounts ≡ some a
          → Q
              (as_closed d.clock a)
              (with_accounts d (update_where (closable id) (as_closed d.clock) d.accounts)))
      → Runs E Q (close_account id) d
  unfolding close_account
  close_account_rule id missing found =
      query_rule _ fault (Answer-one E Q d (find_first (closable id) d.accounts) _ missing found)

  pub set_account_status_rule :
      (id : ℕ) (s : AccountStatus)
      → (find_first (settable id s) d.accounts ≡ none → E no_rows d)
      → ((a : Account)
          → find_first (settable id s) d.accounts ≡ some a
          → Q
              (with_status s d.clock a)
              (with_accounts d (update_where (settable id s) (with_status s d.clock) d.accounts)))
      → Runs E Q (set_account_status id s) d
  unfolding set_account_status
  set_account_status_rule id s missing found =
      query_rule _ fault (Answer-one E Q d (find_first (settable id s) d.accounts) _ missing found)

  pub create_account_rule :
      (p : CreateAccountParams) (u : Uuid)
      → (account_by_number p.account_number d.accounts ≡ none
          → Q (new_account p u d) (with_account (new_account p u d) d))
      → Runs E Q (create_account p u) d
  unfolding create_account
  create_account_rule p u h =
      query_rule _ fault (insert (account_by_number p.account_number d.accounts) h)
    where
      insert :
          (o : Option Account)
          → (o ≡ none → Q (new_account p u d) (with_account (new_account p u d) d))
          → Answer E Q d (elim o [
            | some a ↦ err (db_fault (constraint "accounts_account_number_key"))
            | none ↦ ok (new_account p u d, with_account (new_account p u d) d)
          ])
      insert none h = h refl
      insert (some a) h = fault (constraint "accounts_account_number_key") d
