-- ===== src/Queries/Users.antt =====
-- The queries on `users` (db/sqlc/user.sql.go) of registration and of the verification of addresses.
use monierave.Base.{
  ℕ, ◌+◌, ◌*◌, ◌≡◌, String, List, [], ◌∷◌, ◌++◌, Option, none, some, Bool, ◌&&◌, ◌||◌, not, str_eq,
  leb, ltb, find_first, select, update_where, length, if◌then◌else◌, LetterCase,
}
use monierave.Models.{Time, User, Fault, constraint, db_fault, Error, no_rows}
use monierave.Models.Tables.{Db}
use monierave.Store.{Tx, query, one, ok, err}
use monierave.Store.Rules.{Runs, query_here_rule, Answer-one, Answer-unless_fault}
use monierave.Queries.Ledger.{is_some}
use monierave.Queries.Records.{user_by_name}

abbrev pub with_users : Db → List User → Db
with_users d rows = record d { users = rows }

abbrev pub has_name : String → User → Bool
has_name name u = str_eq u.username name

-- UPDATE users SET … WHERE … RETURNING …
abbrev pub update_user_row : (User → Bool) → (Time → User → User) → Tx User
update_user_row p f = query (λ d.
    one (find_first p d.users)
      (λ u. (f d.clock u, with_users d (update_where p (f d.clock) d.users))))

unfoldable pub get_user_for_update : String → Tx User
get_user_for_update name = query (λ d. one (user_by_name name d.users) (λ u. (u, d)))

-- CreateUserParams
pub record CreateUserParams : Type 0 where
  pub username : String
  pub hashed_password : String
  pub full_name : String
  pub email : String

-- interval '7 days', in the microseconds of a timestamp
abbrev pub seven_days : Time
seven_days = 7 * 86_400_000_000

abbrev pub new_user : CreateUserParams → Time → User
new_user p now = record {
  username = p.username;
  hashed_password = p.hashed_password;
  full_name = p.full_name;
  email = p.email;
  email_verified_at = none;
  email_deliverability_status = "pending";
  email_deliverability_updated_at = none;
  email_bounced_at = none;
  account_status = "pending";
  registration_expires_at = some (now + seven_days);
}

-- The primary key, and the unique index on lower(email).
unfoldable pub user_violation : LetterCase → CreateUserParams → List User → Option Fault
user_violation lc p rows =
    if is_some (user_by_name p.username rows)
    then some (constraint "users_pkey")
    else if is_some (find_first (λ u. str_eq (lc.lower u.email) (lc.lower p.email)) rows)
    then some (constraint "users_email_lower_idx")
    else none

unfoldable pub create_user : LetterCase → CreateUserParams → Tx User
create_user lc p = query (λ d. elim (user_violation lc p d.users) [
  | some f ↦ err (db_fault f)
  | none ↦ ok (new_user p d.clock, with_users d (d.users ++ new_user p d.clock ∷ []))
])

-- AND account_status = 'pending' AND registration_expires_at <= now()
abbrev pub is_overdue : Time → User → Bool
is_overdue now u =
    str_eq u.account_status "pending"
    && elim u.registration_expires_at as (λ _. Bool) [ none ↦ Bool.false | some t ↦ leb t now ]

abbrev pub disabled : User → User
disabled u = record u { account_status = "disabled" }

unfoldable pub disable_expired_pending_user : String → Tx User
disable_expired_pending_user name = query (λ d.
    one (find_first (λ u. str_eq u.username name && is_overdue d.clock u) d.users) (λ u. (
      disabled u,
      with_users d
          (update_where (λ u. str_eq u.username name && is_overdue d.clock u) disabled d.users),
    )))

unfoldable pub disable_expired_pending_users : Tx ℕ
disable_expired_pending_users = query (λ d. ok (
  length (select (is_overdue d.clock) d.users),
  with_users d (update_where (is_overdue d.clock) disabled d.users),
))

-- WHERE username = $1 AND lower(email) = lower($2)
abbrev pub has_address : LetterCase → String → String → User → Bool
has_address lc name email u = str_eq u.username name && str_eq (lc.lower u.email) (lc.lower email)

abbrev pub verified : Time → User → User
verified now u = record u {
  email_verified_at = some (elim u.email_verified_at [ none ↦ now | some t ↦ t ]);
  email_deliverability_status = "deliverable";
  email_deliverability_updated_at = some now;
  email_bounced_at = none;
  account_status = "active";
  registration_expires_at = none;
}

unfoldable pub mark_user_email_verified : LetterCase → String → String → Tx User
mark_user_email_verified lc name email = update_user_row (has_address lc name email) verified

abbrev pub restarted : Time → User → User
restarted now u = record u {
  account_status = "pending";
  registration_expires_at =
      if str_eq u.account_status "disabled"
      then some (now + seven_days)
      else u.registration_expires_at;
  email_verified_at = none;
  email_deliverability_status = "pending";
  email_deliverability_updated_at = none;
  email_bounced_at = none;
}

unfoldable pub restart_user_email_verification : String → Tx User
restart_user_email_verification name = update_user_row (has_name name) restarted

-- UpdateCurrentUserEmailDeliverabilityParams
pub record DeliverabilityParams : Type 0 where
  pub deliverability_status : String
  pub occurred_at : Time
  pub bounced_at : Option Time
  pub username : String
  pub recipient : String

-- WHERE username = $4 AND lower(email) = lower($5), and the report is later and does not take
-- 'undeliverable' back
abbrev pub takes_deliverability : LetterCase → DeliverabilityParams → User → Bool
takes_deliverability lc p u =
    has_address lc p.username p.recipient u
    && elim u.email_deliverability_updated_at as (λ _. Bool) [
      | none ↦ Bool.true
      | some t ↦ ltb t p.occurred_at
    ]
    && (not (str_eq u.email_deliverability_status "undeliverable")
        || str_eq p.deliverability_status "undeliverable")

abbrev pub with_deliverability : DeliverabilityParams → Time → User → User
with_deliverability p now u =
    let lost = str_eq p.deliverability_status "undeliverable" in
    record u {
      email_deliverability_status = p.deliverability_status;
      email_deliverability_updated_at = some p.occurred_at;
      email_bounced_at = elim p.bounced_at [
        | some t ↦ some t
        | none ↦ if str_eq p.deliverability_status "deliverable" then none else u.email_bounced_at
      ];
      email_verified_at = if lost then none else u.email_verified_at;
      account_status = if lost then "pending" else u.account_status;
      registration_expires_at = if lost then some (now + seven_days) else u.registration_expires_at;
    }

unfoldable pub update_current_user_email_deliverability :
    LetterCase → DeliverabilityParams → Tx User
update_current_user_email_deliverability lc p =
    update_user_row (takes_deliverability lc p) (with_deliverability p)

module _ {E : Error → Db → Type 0} {Q : User → Db → Type 0} {d : Db}
    (fault : (f : Fault) → E (db_fault f) d) where
  pub update_user_row_rule :
      (p : User → Bool) (f : Time → User → User)
      → (find_first p d.users ≡ none → E no_rows d)
      → ((u : User)
          → find_first p d.users ≡ some u
          → Q (f d.clock u) (with_users d (update_where p (f d.clock) d.users)))
      → Runs E Q (update_user_row p f) d
  update_user_row_rule p f missing found =
      query_here_rule _ fault (Answer-one E Q d (find_first p d.users) _ missing found)

  pub get_user_for_update_rule :
      (name : String)
      → (user_by_name name d.users ≡ none → E no_rows d)
      → ((u : User) → user_by_name name d.users ≡ some u → Q u d)
      → Runs E Q (get_user_for_update name) d
  unfolding get_user_for_update
  get_user_for_update_rule name missing found =
      query_here_rule _ fault (Answer-one E Q d (user_by_name name d.users) _ missing found)

  pub create_user_rule :
      (lc : LetterCase) (p : CreateUserParams)
      → (user_violation lc p d.users ≡ none
          → Q (new_user p d.clock) (with_users d (d.users ++ new_user p d.clock ∷ [])))
      → Runs E Q (create_user lc p) d
  unfolding create_user
  create_user_rule lc p h =
      query_here_rule _ fault (Answer-unless_fault E Q d (user_violation lc p d.users) _ fault h)
