-- ===== src/Store/Atomic.antt =====
-- What `execTx` makes of a body, and its errors.
use monierave.Base.{◌≡◌, refl, Option, none, some}
use monierave.Models.{Fault, Error, db_fault, rollback_failed, joined}
use monierave.Models.Tables.{Db}
use monierave.Store.{Result, ok, err, World, Tx, next_trip, end_tx, exec_tx}
use monierave.Store.Rules.{Post, Runs, AnyError, weaken}

-- The errors of `execTx` in a database `d`: one of its body, one of its body whose rollback was
-- refused as well, or the refusal of the begin or of the commit. The database is `d` again.
pub data TxError (E : Error → Db → Type 0) (d : Db) : Error → Db → Type 0 where
  from_body : (e : Error) (d' : Db) → E e d' → TxError E d e d
  unrolled : (e : Error) (d' : Db) → E e d' → TxError E d (rollback_failed e) d
  refused : (f : Fault) → TxError E d (db_fault f) d

module _ {A : Type 0} (E : Error → Db → Type 0) (Q : A → Db → Type 0) (d : Db) where
  committed :
      (a : A) (w : World) (o : Option Fault)
      → Q a w.db
      → Post (TxError E d) Q (elim o [
        | none ↦ (ok a, next_trip w)
        | some f ↦ (err (db_fault f), record (next_trip w) { db = d })
      ])
  committed a w none h = h
  committed a w (some f) h = refused f

  undone :
      (e : Error) (w : World) (o : Option Fault)
      → E e w.db
      → Post (TxError E d) Q (elim o [
        | none ↦ (err e, record (next_trip w) { db = d })
        | some f ↦ (err (rollback_failed e), record (next_trip w) { db = d })
      ])
  undone e w none h = from_body e w.db h
  undone e w (some f) h = unrolled e w.db h

  Post-end_tx : (r : Result A × World) → Post E Q r → Post (TxError E d) Q (end_tx d r)
  unfolding end_tx
  Post-end_tx (ok a, w) h = committed a w (w.faults w.trips) h
  Post-end_tx (err e, w) h = undone e w (w.faults w.trips) h

  begun :
      (m : Tx A)
      → Runs E Q m d
      → (w : World) (o : Option Fault)
      → Post (TxError E d) Q (elim o [
        | none ↦ end_tx d (m (next_trip (record w { db = d })))
        | some f ↦ (err (db_fault f), next_trip (record w { db = d }))
      ])
  begun m h w none = Post-end_tx (m (next_trip (record w { db = d }))) (h.at (next_trip w))
  begun m h w (some f) = refused f

module _ {A : Type 0} {E : Error → Db → Type 0} {Q : A → Db → Type 0} where
  -- A transaction that commits did what its body does; one that fails left the database alone.
  pub exec_tx_rule : {m : Tx A} {d : Db} → Runs E Q m d → Runs (TxError E d) Q (exec_tx m) d
  unfolding exec_tx
  exec_tx_rule {m} {d} h = record { at = λ w. begun E Q d m h w (w.faults w.trips) }

-- Whatever the error, the transaction left the database alone.
pub TxError-unchanged :
    {E : Error → Db → Type 0} {d : Db} {e : Error} {d' : Db} → TxError E d e d' → d' ≡ d
TxError-unchanged (from_body e d' h) = refl
TxError-unchanged (unrolled e d' h) = refl
TxError-unchanged (refused f) = refl

-- A transaction that returns an error has left the whole database as it was, and one that returns a
-- value has done what its body does, whichever of its begin, queries, commit and rollback is refused.
pub exec_tx-atomic :
    {A : Type 0} {Q : A → Db → Type 0} (m : Tx A) (d : Db)
    → Runs AnyError Q m d
    → Runs (λ _ d'. d' ≡ d) Q (exec_tx m) d
exec_tx-atomic m d h = weaken (exec_tx_rule h) (λ a d' q. q) (λ e d' t. TxError-unchanged t)

-- An error that only the outside causes: a refused round trip, also where the rollback or the record
-- of the failure was refused on top.
pub data Infrastructure : Error → Type 0 where
  of_fault : (f : Fault) → Infrastructure (db_fault f)
  of_rollback : (e : Error) → Infrastructure e → Infrastructure (rollback_failed e)
  of_join : (e x : Error) → Infrastructure e → Infrastructure (joined e x)

pub TxError-Infrastructure :
    {d : Db} {e : Error} {d' : Db} → TxError (λ x _. Infrastructure x) d e d' → Infrastructure e
TxError-Infrastructure (from_body e d' h) = h
TxError-Infrastructure (unrolled e d' h) = of_rollback e h
TxError-Infrastructure (refused f) = of_fault f

-- The error of a body, alone or wrapped, or one that only the outside causes.
pub data Rejection (cause : Error) : Error → Type 0 where
  the_cause : Rejection cause cause
  wrapped : (e : Error) → Rejection cause e → Rejection cause (rollback_failed e)
  beside : (e x : Error) → Rejection cause e → Rejection cause (joined e x)
  outside : (e : Error) → Infrastructure e → Rejection cause e

pub TxError-Rejection :
    {cause : Error} {d : Db} {e : Error} {d' : Db}
    → TxError (λ x _. Rejection cause x) d e d'
    → Rejection cause e
TxError-Rejection (from_body e d' h) = h
TxError-Rejection (unrolled e d' h) = wrapped e h
TxError-Rejection (refused f) = outside _ (of_fault f)
