-- ===== src/Store/Rules.antt =====
-- Hoare rules for the actions of the store. `Runs E Q m d` says how `m` can end when it starts in
-- the database `d`, whatever faults and UUIDs the outside supplies: with a value and a database
-- that satisfy `Q`, or with an error and a database that satisfy `E`.
use monierave.Base.{
  ℕ, String, ◌≡◌, refl, Bool, true, false, Option, none, some, subst, sym, if◌then◌else◌,
}
use monierave.Models.{Uuid, Fault, Error, db_fault, no_rows}
use monierave.Models.Tables.{Db}
use monierave.Store.{
  Result, ok, err, World, Tx, pure, raise, lift, query, ◌>>=◌, new_uuid, random_below,
  uuid_hex_text, fail_if, on_error, next_trip, one, catch,
}

module _ {A : Type 0} (E : Error → Db → Type 0) (Q : A → Db → Type 0) where
  abbrev pub Post : Result A × World → Type 0
  Post (ok a, w) = Q a w.db
  Post (err e, w) = E e w.db

pub record Runs {A : Type 0} (E : Error → Db → Type 0) (Q : A → Db → Type 0) (m : Tx A) (d : Db)
    : Type 0 where
  pub at : (w : World) → Post E Q (m (record w { db = d }))

-- Any fault of the database may show, in any state.
abbrev pub Faulty : (Error → Db → Type 0) → Type 0
Faulty E = (f : Fault) (d : Db) → E (db_fault f) d

-- Errors of which nothing is claimed.
abbrev pub AnyError : Error → Db → Type 0
AnyError e d = Unit

module _ {A : Type 0} {E : Error → Db → Type 0} {Q : A → Db → Type 0} where
  pub pure_rule : {d : Db} (a : A) → Q a d → Runs E Q (pure a) d
  unfolding pure
  pure_rule a h = record { at = λ w. h }

  pub raise_rule : {d : Db} (e : Error) → E e d → Runs E Q (raise e) d
  unfolding raise
  raise_rule e h = record { at = λ w. h }

  Post-weaken :
      {E' : Error → Db → Type 0} {Q' : A → Db → Type 0} (r : Result A × World)
      → ((a : A) (d : Db) → Q' a d → Q a d)
      → ((e : Error) (d : Db) → E' e d → E e d)
      → Post E' Q' r
      → Post E Q r
  Post-weaken (ok a, w) q e h = q a w.db h
  Post-weaken (err x, w) q e h = e x w.db h

  pub weaken :
      {E' : Error → Db → Type 0} {Q' : A → Db → Type 0} {m : Tx A} {d : Db}
      → Runs E' Q' m d
      → ((a : A) (d' : Db) → Q' a d' → Q a d')
      → ((e : Error) (d' : Db) → E' e d' → E e d')
      → Runs E Q m d
  weaken {m} {d} h q e = record { at = λ w. Post-weaken (m (record w { db = d })) q e (h.at w) }

module _ {A : Type 0} (E : Error → Db → Type 0) (Q : A → Db → Type 0) (g : Error → Error) where
  Post-on_error :
      (r : Result A × World)
      → Post (λ e d. E (g e) d) Q r
      → Post E Q (let (x, w') = r in elim x [ ok a ↦ (ok a, w') | err e ↦ (err (g e), w') ])
  Post-on_error (ok a, w) h = h
  Post-on_error (err e, w) h = h

module _ {A : Type 0} {E : Error → Db → Type 0} {Q : A → Db → Type 0} (g : Error → Error) where
  pub on_error_rule :
      {m : Tx A} {d : Db} → Runs (λ e d'. E (g e) d') Q m d → Runs E Q (on_error g m) d
  unfolding on_error
  on_error_rule {m} {d} h = record {
    at = λ w. Post-on_error E Q g (m (record w { db = d })) (h.at w);
  }

-- What is to be shown of a query's answer.
module _ {A : Type 0} (E : Error → Db → Type 0) (Q : A → Db → Type 0) (d : Db) where
  abbrev pub Answer : Result (A × Db) → Type 0
  Answer (ok (a, d')) = Q a d'
  Answer (err e) = E e d

  Post-query :
      (o : Option Fault) (w : World) (r : Result (A × Db))
      → ((f : Fault) → E (db_fault f) d)
      → Answer r
      → Post E Q (
          let w' = record w { db = d } in
          elim o [
            | some f ↦ (err (db_fault f), w')
            | none ↦ elim r [ ok (a, d') ↦ (ok a, record w' { db = d' }) | err e ↦ (err e, w') ]
          ])
  Post-query (some f) w r fault h = fault f
  Post-query none w (ok (a, d')) fault h = h
  Post-query none w (err e) fault h = h

  pub Answer-one :
      {R : Type 0} (o : Option R) (k : R → A × Db)
      → (o ≡ none → E no_rows d)
      → ((a : R) → o ≡ some a → Q (k a).0 (k a).1)
      → Answer (one o k)
  Answer-one none k missing found = missing refl
  Answer-one (some a) k missing found = found a refl

  pub Answer-if :
      (b : Bool) (f : Fault) (r : Result (A × Db))
      → E (db_fault f) d
      → (b ≡ false → Answer r)
      → Answer (if b then err (db_fault f) else r)
  Answer-if true f r fault h = fault
  Answer-if false f r fault h = h refl

  pub Answer-unless_fault :
      (o : Option Fault) (x : A × Db)
      → ((f : Fault) → E (db_fault f) d)
      → (o ≡ none → Q x.0 x.1)
      → Answer (elim o [ some f ↦ err (db_fault f) | none ↦ ok x ])
  Answer-unless_fault (some f) x fault h = fault f
  Answer-unless_fault none x fault h = h refl

module _ {A : Type 0} {E : Error → Db → Type 0} {Q : A → Db → Type 0} where
  -- A round trip: a fault, which leaves the tables alone, or what the query makes of them.
  pub query_here_rule :
      (q : Db → Result (A × Db)) {d : Db}
      → ((f : Fault) → E (db_fault f) d)
      → Answer E Q d (q d)
      → Runs E Q (query q) d
  unfolding query
  query_here_rule q {d} fault h = record {
    at = λ w. Post-query E Q d (w.faults w.trips) (next_trip w) (q d) fault h;
  }

  pub query_rule :
      (q : Db → Result (A × Db)) {d : Db} → Faulty E → Answer E Q d (q d) → Runs E Q (query q) d
  query_rule q {d} fault h = query_here_rule q (λ f. fault f d) h

module _ {E : Error → Db → Type 0} where
  pub new_uuid_rule : {Q : Uuid → Db → Type 0} {d : Db} → ((u : Uuid) → Q u d) → Runs E Q new_uuid d
  unfolding new_uuid
  new_uuid_rule h = record { at = λ w. h (w.uuids w.drawn) }

  pub random_below_rule :
      {Q : Option ℕ → Db → Type 0} (bound : ℕ) {d : Db}
      → ((o : Option ℕ) → Q o d)
      → Runs E Q (random_below bound) d
  unfolding random_below
  random_below_rule bound h = record { at = λ w. h _ }

  pub uuid_hex_text_rule :
      {Q : String → Db → Type 0} (u : Uuid) {d : Db}
      → ((s : String) → Q s d)
      → Runs E Q (uuid_hex_text u) d
  unfolding uuid_hex_text
  uuid_hex_text_rule u h = record { at = λ w. h (w.uuid_hex u) }

  pub lift_rule :
      {A : Type 0} {Q : A → Db → Type 0} (r : Result A) {d : Db}
      → ((a : A) → r ≡ ok a → Q a d)
      → ((e : Error) → r ≡ err e → E e d)
      → Runs E Q (lift r) d
  unfolding lift
  lift_rule (ok a) h k = record { at = λ w. h a refl }
  lift_rule (err e) h k = record { at = λ w. k e refl }

  pub fail_if_rule :
      {Q : Unit {0} → Db → Type 0} {c : Bool} (e : Error) {d : Db}
      → (c ≡ true → E e d)
      → (c ≡ false → Q tt d)
      → Runs E Q (fail_if c e) d
  unfolding fail_if
  fail_if_rule {c = true} e stop go = record { at = λ w. stop refl }
  fail_if_rule {c = false} e stop go = record { at = λ w. go refl }

module _ {A B : Type 0} {E : Error → Db → Type 0} {Q : B → Db → Type 0} where
  Post-continue :
      {P : A → Db → Type 0} (f : A → Tx B) (r : Result A) (w : World)
      → Post E P (r, w)
      → ((a : A) (d : Db) → P a d → Runs E Q (f a) d)
      → Post E Q (elim r [ ok a ↦ f a w | err e ↦ (err e, w) ])
  Post-continue f (ok a) w h k = (k a w.db h).at w
  Post-continue f (err e) w h k = h

  -- An action whose own rule gives `P`, and the rest of the block from every outcome of it.
  pub bind_rule :
      {P : A → Db → Type 0} {m : Tx A} {f : A → Tx B} {d : Db}
      → Runs E P m d
      → ((a : A) (d' : Db) → P a d' → Runs E Q (f a) d')
      → Runs E Q (m >>= f) d
  unfolding ◌>>=◌
  bind_rule {m} {f} {d} h k = record {
    at = λ w. let (r, w') = m (record w { db = d }) in Post-continue f r w' (h.at w) k;
  }

  -- A step of a block, with the rest of the block as what is to hold after it.
  pub then_rule :
      {m : Tx A} {f : A → Tx B} {d : Db}
      → Runs E (λ a d'. Runs E Q (f a) d') m d
      → Runs E Q (m >>= f) d
  then_rule h = bind_rule h (λ a d' k. k)

module _ {A : Type 0} {E : Error → Db → Type 0} {Q : A → Db → Type 0} where
  -- A rule of one database, for a name of it.
  pub same_start : {m : Tx A} {d d' : Db} → d' ≡ d → Runs E Q m d → Runs E Q m d'
  same_start {m} same h = subst (λ x. Runs E Q m x) (sym same) h

  Post-catch :
      {P : Error → Db → Type 0} (f : Error → Tx A) (r : Result A) (w : World)
      → Post P Q (r, w)
      → ((e : Error) (d : Db) → P e d → Runs E Q (f e) d)
      → Post E Q (elim r [ ok a ↦ (ok a, w) | err e ↦ f e w ])
  Post-catch f (ok a) w h k = h
  Post-catch f (err e) w h k = (k e w.db h).at w

  pub catch_rule :
      {P : Error → Db → Type 0} {m : Tx A} {f : Error → Tx A} {d : Db}
      → Runs P Q m d
      → ((e : Error) (d' : Db) → P e d' → Runs E Q (f e) d')
      → Runs E Q (catch m f) d
  unfolding catch
  catch_rule {m} {f} {d} h k = record {
    at = λ w. let (r, w') = m (record w { db = d }) in Post-catch f r w' (h.at w) k;
  }

module _ {A : Type 0} where
  Post-any : (r : Result A × World) → Post AnyError (λ _ _. Unit) r
  Post-any (ok a, w) = tt
  Post-any (err e, w) = tt

  -- A step of which nothing is claimed.
  pub any_rule : (m : Tx A) (d : Db) → Runs AnyError (λ _ _. Unit) m d
  any_rule m d = record { at = λ w. Post-any (m (record w { db = d })) }

module _ {A : Type 0} (E E' : Error → Db → Type 0) (Q Q' : A → Db → Type 0) where
  Post-both :
      (r : Result A × World)
      → Post E Q r
      → Post E' Q' r
      → Post (λ e d. E e d × E' e d) (λ a d. Q a d × Q' a d) r
  Post-both (ok a, w) h k = (h, k)
  Post-both (err e, w) h k = (h, k)

-- Two results about one action, as one.
pub both_rule :
    {A : Type 0} {E E' : Error → Db → Type 0} {Q Q' : A → Db → Type 0} {m : Tx A} {d : Db}
    → Runs E Q m d
    → Runs E' Q' m d
    → Runs (λ e d'. E e d' × E' e d') (λ a d'. Q a d' × Q' a d') m d
both_rule {E} {E'} {Q} {Q'} {m} {d} h k = record {
  at = λ w. Post-both E E' Q Q' (m (record w { db = d })) (h.at w) (k.at w);
}
