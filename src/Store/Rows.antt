-- ===== src/Store/Rows.antt =====
-- A query whose missing row the caller looks at.
use monierave.Base.{◌≡◌, refl, Bool, true, false, Option, none, some, if◌then◌else◌}
use monierave.Models.{Error, Fault, db_fault, no_rows}
use monierave.Models.Tables.{Db}
use monierave.Store.{Tx, Result, err, nothing_to_do, row_or_none}
use monierave.Store.Rules.{
  Runs, AnyError, Answer, pure_rule, raise_rule, bind_rule, catch_rule, weaken,
}

-- What is known where a query finds no row.
abbrev pub Missing : (Db → Type 0) → Error → Db → Type 0
Missing N e d = e ≡ no_rows → N d

pub no_fault : (N : Db → Type 0) (f : Fault) (d : Db) → Missing N (db_fault f) d
no_fault N f d h = cc

module _ {A : Type 0} where
  abbrev pub Row : (A → Db → Type 0) → (Db → Type 0) → Option A → Db → Type 0
  Row Q N none d = N d
  Row Q N (some a) d = Q a d

  module _ {Q : A → Db → Type 0} (N : Db → Type 0) where
    nothing_to_do_rule :
        (e : Error) (d : Db) → Missing N e d → Runs AnyError (Row Q N) (nothing_to_do e) d
    nothing_to_do_rule no_rows d h = pure_rule none (h refl)
    nothing_to_do_rule e d h = raise_rule _ tt

    pub row_or_none_rule :
        {m : Tx A} {d : Db} → Runs (Missing N) Q m d → Runs AnyError (Row Q N) (row_or_none m) d
    unfolding row_or_none
    row_or_none_rule h =
        catch_rule (bind_rule h (λ a d1 k. pure_rule (some a) k))
          (λ e d1 k. nothing_to_do_rule e d1 k)

pub not_missing : {N : Type 0} (f : Fault) → db_fault f ≡ no_rows → N
not_missing f h = cc

module _ {A : Type 0} {Q : Option A → Db → Type 0} where
  -- A query whose row may be missing, with what is to hold in either case.
  pub row_rule :
      {m : Tx A} {d : Db}
      → Runs (λ e d'. e ≡ no_rows → Q none d') (λ a d'. Q (some a) d') m d
      → Runs AnyError Q (row_or_none m) d
  row_rule h =
      weaken (row_or_none_rule {Q = λ a d'. Q (some a) d'} (λ d'. Q none d') h) go (λ e d' k. k)
    where
      go : (o : Option A) (d' : Db) → Row (λ a x. Q (some a) x) (λ x. Q none x) o d' → Q o d'
      go none d' k = k
      go (some a) d' k = k

module _ {A : Type 0} (E : Error → Db → Type 0) (Q : A → Db → Type 0) (d : Db) where
  pub Answer-unless :
      (b : Bool) (r : Result (A × Db))
      → (b ≡ true → E no_rows d)
      → (b ≡ false → Answer E Q d r)
      → Answer E Q d (if b then err no_rows else r)
  Answer-unless true r found h = found refl
  Answer-unless false r found h = h refl
