-- ===== src/Banking/Idempotency/Rules.antt =====
-- Rules for the parts of `idempotent_transfer_with_queries`, and the key that is found after them.
use mathlib.Core.Option
use monierave.Base.{
  ℕ, ◌≡◌, refl, List, [], ◌∷◌, ◌++◌, true, Option, none, some, find_first, update_where,
  find_first-append, find_first-update_where, or_else, eq_iff, if◌then◌else◌, ◌∙◌, ap,
}
use monierave.Models.{
  Uuid, TransferTxResult, IdempotencyKey, Error, no_rows, incomplete_idempotency_record,
}
use monierave.Models.Tables.{Db}
use monierave.Store.{pure, raise}
use monierave.Store.Rules.{Runs, Faulty, pure_rule, raise_rule, then_rule, catch_rule}
use monierave.Queries.Idempotency.{
  KeyName, names, key_by_name, with_key, new_key, completable, completed,
  create_idempotency_key_rule,
}
use monierave.Banking.Idempotency.{
  IdempotentTransferTxParams, key_name, none_for_no_rows, reserve_key, replayed_result,
}

module _ {E : Error → Db → Type 0} {Q : Option IdempotencyKey → Db → Type 0} {d : Db} where
  pub reserve_key_rule :
      Faulty E
      → (p : IdempotentTransferTxParams)
      → ((k : IdempotencyKey) → key_by_name (key_name p) d.idempotency_keys ≡ some k → Q none d)
      → (key_by_name (key_name p) d.idempotency_keys ≡ none
          → Q
              (some (new_key (key_name p) p.request_hash d))
              (with_key (new_key (key_name p) p.request_hash d) d))
      → Runs E Q (reserve_key p) d
  unfolding reserve_key none_for_no_rows
  reserve_key_rule fault p taken free =
      catch_rule {P = λ e x. Runs E Q (none_for_no_rows e) x}
        (then_rule (
          create_idempotency_key_rule faults (key_name p) p.request_hash no_row
            (λ e. pure_rule _ (free e))))
        (λ e x h. h)
    where
      faults : Faulty (λ e x. Runs E Q (none_for_no_rows e) x)
      faults f x = raise_rule _ (fault f x)

      no_row :
          (k : IdempotencyKey)
          → key_by_name (key_name p) d.idempotency_keys ≡ some k
          → Runs E Q (none_for_no_rows no_rows) d
      no_row k e = pure_rule _ (taken k e)

named_new : (n : KeyName) (hash : List ℕ) (d : Db) → names n (new_key n hash d) ≡ true
named_new n hash d = rw (
  (eq_iff n.username n.username).1 refl,
  (eq_iff n.operation n.operation).1 refl,
  (eq_iff n.idempotency_key n.idempotency_key).1 refl,
)

-- The key that was reserved is the one that is completed.
pub stored_key :
    (n : KeyName) (hash : List ℕ) (d : Db) (u : Uuid) (status : ℕ) (r : TransferTxResult)
    (rows : List IdempotencyKey)
    → key_by_name n rows ≡ none
    → key_by_name n
        (update_where (completable n) (completed u status r) (rows ++ new_key n hash d ∷ []))
      ≡ some (completed u status r (new_key n hash d))
unfolding find_first
stored_key n hash d u status r rows free =
    find_first-update_where (names n) (completable n) (completed u status r)
      (rows ++ new_key n hash d ∷ []) (λ x. refl)
    ∙ ap (Option.map (λ x. if completable n x then completed u status r x else x))
        (new_found (find_first-append (names n) rows (new_key n hash d ∷ [])))
    ∙ rw (named_new n hash d)
  where
    new_found :
        find_first (names n) (rows ++ new_key n hash d ∷ [])
          ≡ or_else (find_first (names n) rows) (find_first (names n) (new_key n hash d ∷ []))
        → find_first (names n) (rows ++ new_key n hash d ∷ []) ≡ some (new_key n hash d)
    new_found e = e ∙ rw (free, named_new n hash d)

pub replayed_result_rule :
    {E : Error → Db → Type 0} {Q : TransferTxResult → Db → Type 0} (k : IdempotencyKey) {d : Db}
    → E incomplete_idempotency_record d
    → ((r : TransferTxResult) → k.result_snapshot ≡ some r → Q (record r { replayed = true }) d)
    → Runs E Q (replayed_result k) d
unfolding replayed_result
replayed_result_rule {E} {Q} k {d} bad good = cases k.transaction_id k.result_snapshot good
  where
    cases :
        (t : Option Uuid) (s : Option TransferTxResult)
        → ((r : TransferTxResult) → s ≡ some r → Q (record r { replayed = true }) d)
        → Runs E Q
            (elim t [
              | none ↦ raise incomplete_idempotency_record
              | some t ↦ elim s [
                | none ↦ raise incomplete_idempotency_record
                | some r ↦ pure (record r { replayed = true })
              ]
            ])
            d
    cases none s good = raise_rule _ bad
    cases (some t) none good = raise_rule _ bad
    cases (some t) (some r) good = pure_rule _ (good r refl)
