-- ===== src/Store.antt =====
-- The store (db/sqlc/store.go, db/sqlc/db.go): queries against the database, errors as values, and
-- `execTx`. What the code cannot decide comes from outside: which query the database refuses (a
-- lost connection, a constraint, a trigger), which UUIDs are drawn, and how a UUID is written.
pub mod Rules
pub mod Atomic
pub mod After
pub mod Rows
use monierave.Base.{ℕ, suc, ◌%◌, String, Option, none, some, Bool, if◌then◌else◌}
use monierave.Models.{Uuid, Fault, Error, db_fault, no_rows, rollback_failed}
use monierave.Models.Tables.{Db}

pub data Result {ℓ} (A : Type ℓ) : Type ℓ where
  ok : A → Result A
  err : Error → Result A

-- `faults n` is the database's answer to the n-th round trip; `uuids n` and `numbers n` are the UUID
-- and the random number of the n-th draw, and `numbers n` is `none` where the source of randomness
-- fails.
pub record World : Type 0 where
  pub db : Db
  pub trips : ℕ
  pub faults : ℕ → Option Fault
  pub drawn : ℕ
  pub uuids : ℕ → Uuid
  pub numbers : ℕ → Option ℕ
  -- `strings.ToUpper(strings.ReplaceAll(id.String(), "-", ""))`
  pub uuid_hex : Uuid → String

abbrev pub Tx : Type 0 → Type 0
Tx A = World → Result A × World

abbrev pub next_trip : World → World
next_trip w = record w { trips = suc w.trips }

module _ {A : Type 0} where
  unfoldable pub pure : A → Tx A
  pure a w = (ok a, w)

  unfoldable pub raise : Error → Tx A
  raise e w = (err e, w)

  -- What a pure part of a block returns.
  unfoldable pub lift : Result A → Tx A
  lift r w = (r, w)

  -- One round trip to the database.
  unfoldable pub query : (Db → Result (A × Db)) → Tx A
  query q w =
      let w' = next_trip w in
      elim (w.faults w.trips) [
        | some f ↦ (err (db_fault f), w')
        | none ↦ elim (q w.db) [ ok (a, d) ↦ (ok a, record w' { db = d }) | err e ↦ (err e, w') ]
      ]

module _ {A B : Type 0} where
  infixl 5 ◌>>=◌ ◌>>◌
  unfoldable pub ◌>>=◌ : Tx A → (A → Tx B) → Tx B
  ◌>>=◌ m f w = let (r, w') = m w in elim r [ ok a ↦ f a w' | err e ↦ (err e, w') ]

  abbrev pub ◌>>◌ : Tx A → Tx B → Tx B
  m >> k = m >>= λ _. k

-- `uuid.New()`
unfoldable pub new_uuid : Tx Uuid
new_uuid w = (ok (w.uuids w.drawn), record w { drawn = suc w.drawn })

-- `rand.Int(rand.Reader, bound)`
unfoldable pub random_below : ℕ → Tx (Option ℕ)
random_below bound w = (
  ok (elim (w.numbers w.drawn) [ none ↦ none | some n ↦ some (n % bound) ]),
  record w { drawn = suc w.drawn },
)

unfoldable pub uuid_hex_text : Uuid → Tx String
uuid_hex_text u w = (ok (w.uuid_hex u), w)

-- `execTx` begins (a round trip), runs its body, and ends it: by a commit, or by a rollback if the
-- body fails. Each of the three may be refused. A commit that is refused did not take place, and a
-- connection whose rollback is refused is closed, which undoes its transaction as well.
module _ {A : Type 0} where
  unfoldable pub end_tx : Db → Result A × World → Result A × World
  end_tx d (ok a, w) = elim (w.faults w.trips) [
    | none ↦ (ok a, next_trip w)
    | some f ↦ (err (db_fault f), record (next_trip w) { db = d })
  ]
  end_tx d (err e, w) = elim (w.faults w.trips) [
    | none ↦ (err e, record (next_trip w) { db = d })
    | some f ↦ (err (rollback_failed e), record (next_trip w) { db = d })
  ]

  unfoldable pub exec_tx : Tx A → Tx A
  unfolding end_tx
  exec_tx m w = elim (w.faults w.trips) [
    | none ↦ end_tx w.db (m (next_trip w))
    | some f ↦ (err (db_fault f), next_trip w)
  ]

-- `if c { return e }`
unfoldable pub fail_if : Bool → Error → Tx (Unit {0})
unfolding pure raise
fail_if c e = if c then raise e else pure tt

-- `if err != nil { return translate(err) }`
unfoldable pub on_error : {A : Type 0} → (Error → Error) → Tx A → Tx A
on_error f m w = let (r, w') = m w in elim r [ ok a ↦ (ok a, w') | err e ↦ (err (f e), w') ]

-- A `:one` query: `pgx.ErrNoRows` where no row fits.
abbrev pub one : {A B : Type 0} → Option A → (A → B × Db) → Result (B × Db)
one none k = err no_rows
one (some a) k = ok (k a)

-- `if err != nil { return handler(err) }` after a call that has returned.
unfoldable pub catch : {A : Type 0} → Tx A → (Error → Tx A) → Tx A
catch m f w = let (r, w') = m w in elim r [ ok a ↦ (ok a, w') | err e ↦ f e w' ]

-- `if err != nil && !errors.Is(err, pgx.ErrNoRows) { return err }`: `none` where no row fits.
module _ {A : Type 0} where
  abbrev pub nothing_to_do : Error → Tx (Option A)
  nothing_to_do no_rows = pure none
  nothing_to_do e = raise e

  unfoldable pub row_or_none : Tx A → Tx (Option A)
  row_or_none m = catch (m >>= λ a. pure (some a)) nothing_to_do
