-- ===== src/Queries/Idempotency.antt =====
-- The queries on `idempotency_keys` (db/sqlc/idempotency.sql.go), with a rule for each.
use monierave.Base.{
  ℕ, suc, ◌+◌, ◌≡◌, refl, String, [], ◌∷◌, ◌++◌, Bool, true, false, ◌&&◌, not, Option, none, some,
  List, str_eq, leb, find_first, select, update_where,
}
use monierave.Models.{Uuid, Time, TransferTxResult, IdempotencyKey, Error, no_rows}
use monierave.Models.Tables.{Db}
use monierave.Store.{Tx, query, one, ok, err}
use monierave.Store.Rules.{Runs, Faulty, query_rule, Answer, Answer-one}

-- What the unique constraint ranges over.
pub record KeyName : Type 0 where
  pub username : String
  pub operation : String
  pub idempotency_key : String

abbrev pub names : KeyName → IdempotencyKey → Bool
names n k =
    str_eq k.username n.username
    && str_eq k.operation n.operation
    && str_eq k.idempotency_key n.idempotency_key

abbrev pub key_by_name : KeyName → List IdempotencyKey → Option IdempotencyKey
key_by_name n = find_first (names n)

abbrev pub with_keys : Db → List IdempotencyKey → Db
with_keys d rows = record d { idempotency_keys = rows }

-- WHERE … AND expires_at <= now()
abbrev pub outdated : KeyName → Time → IdempotencyKey → Bool
outdated n now k = names n k && leb k.expires_at now

abbrev pub live_keys : KeyName → Db → List IdempotencyKey
live_keys n d = select (λ k. not (outdated n d.clock k)) d.idempotency_keys

unfoldable pub delete_expired_idempotency_key : KeyName → Tx (Unit {0})
delete_expired_idempotency_key n = query (λ d. ok (tt, with_keys d (live_keys n d)))

-- now() + interval '24 hours'
abbrev pub key_lifetime : Time
key_lifetime = 86_400_000_000

abbrev pub new_key : KeyName → List ℕ → Db → IdempotencyKey
new_key n hash d = record {
  id = d.next_key_id;
  username = n.username;
  operation = n.operation;
  idempotency_key = n.idempotency_key;
  request_hash = hash;
  transaction_id = none;
  response_status = none;
  result_snapshot = none;
  created_at = d.clock;
  expires_at = d.clock + key_lifetime;
}

abbrev pub with_key : IdempotencyKey → Db → Db
with_key k d = record d {
  idempotency_keys = d.idempotency_keys ++ k ∷ [];
  next_key_id = suc d.next_key_id;
}

-- ON CONFLICT (username, operation, idempotency_key) DO NOTHING: no row comes back.
unfoldable pub create_idempotency_key : KeyName → List ℕ → Tx IdempotencyKey
create_idempotency_key n hash = query (λ d. elim (key_by_name n d.idempotency_keys) [
  | some k ↦ err no_rows
  | none ↦ ok (new_key n hash d, with_key (new_key n hash d) d)
])

unfoldable pub get_idempotency_key_for_update : KeyName → Tx IdempotencyKey
get_idempotency_key_for_update n = query (λ d. one (key_by_name n d.idempotency_keys) (λ k. (k, d)))

abbrev pub without_transaction : Option Uuid → Bool
without_transaction none = true
without_transaction (some u) = false

-- WHERE … AND transaction_id IS NULL
abbrev pub completable : KeyName → IdempotencyKey → Bool
completable n k = names n k && without_transaction k.transaction_id

abbrev pub completed : Uuid → ℕ → TransferTxResult → IdempotencyKey → IdempotencyKey
completed t status snapshot k = record k {
  transaction_id = some t;
  response_status = some status;
  result_snapshot = some snapshot;
}

unfoldable pub complete_idempotency_key : KeyName → Uuid → ℕ → TransferTxResult → Tx IdempotencyKey
complete_idempotency_key n t status snapshot = query (λ d.
    one (find_first (completable n) d.idempotency_keys) (λ k. (
      completed t status snapshot k,
      with_keys d (update_where (completable n) (completed t status snapshot) d.idempotency_keys),
    )))

module _ {E : Error → Db → Type 0} {d : Db} (fault : Faulty E) where
  pub delete_expired_idempotency_key_rule :
      {Q : Unit {0} → Db → Type 0} (n : KeyName)
      → Q tt (with_keys d (live_keys n d))
      → Runs E Q (delete_expired_idempotency_key n) d
  unfolding delete_expired_idempotency_key
  delete_expired_idempotency_key_rule n h = query_rule _ fault h

  pub create_idempotency_key_rule :
      {Q : IdempotencyKey → Db → Type 0} (n : KeyName) (hash : List ℕ)
      → ((k : IdempotencyKey) → key_by_name n d.idempotency_keys ≡ some k → E no_rows d)
      → (key_by_name n d.idempotency_keys ≡ none
          → Q (new_key n hash d) (with_key (new_key n hash d) d))
      → Runs E Q (create_idempotency_key n hash) d
  unfolding create_idempotency_key
  create_idempotency_key_rule {Q} n hash taken free =
      query_rule _ fault (insert (key_by_name n d.idempotency_keys) taken free)
    where
      insert :
          (o : Option IdempotencyKey)
          → ((k : IdempotencyKey) → o ≡ some k → E no_rows d)
          → (o ≡ none → Q (new_key n hash d) (with_key (new_key n hash d) d))
          → Answer E Q d (elim o [
            | some k ↦ err no_rows
            | none ↦ ok (new_key n hash d, with_key (new_key n hash d) d)
          ])
      insert none taken free = free refl
      insert (some k) taken free = taken k refl

  pub get_idempotency_key_for_update_rule :
      {Q : IdempotencyKey → Db → Type 0} (n : KeyName)
      → (key_by_name n d.idempotency_keys ≡ none → E no_rows d)
      → ((k : IdempotencyKey) → key_by_name n d.idempotency_keys ≡ some k → Q k d)
      → Runs E Q (get_idempotency_key_for_update n) d
  unfolding get_idempotency_key_for_update
  get_idempotency_key_for_update_rule {Q} n missing found =
      query_rule _ fault (Answer-one E Q d (key_by_name n d.idempotency_keys) _ missing found)

  pub complete_idempotency_key_rule :
      {Q : IdempotencyKey → Db → Type 0} (n : KeyName) (t : Uuid) (status : ℕ)
      (snapshot : TransferTxResult)
      → (find_first (completable n) d.idempotency_keys ≡ none → E no_rows d)
      → ((k : IdempotencyKey)
          → find_first (completable n) d.idempotency_keys ≡ some k
          → Q (completed t status snapshot k) (
              with_keys d
                (update_where (completable n) (completed t status snapshot) d.idempotency_keys)))
      → Runs E Q (complete_idempotency_key n t status snapshot) d
  unfolding complete_idempotency_key
  complete_idempotency_key_rule {Q} n t status snapshot missing found =
      query_rule _ fault
        (Answer-one E Q d (find_first (completable n) d.idempotency_keys) _ missing found)
