-- ===== src/Base/Rows.antt =====
-- The rows that a SELECT gives: the rows that a table's rows make, and ORDER BY.

use Prim.Native.Nat.{ℕ, zero, suc, ◌≤◌}
use mathlib.Core.Path.{subst, sym, ◌≡◌, refl}
use native.Mathlib.Omega.{arith}
use mathlib.Core.Logic.{◌↔◌, inl, inr}
use mathlib.Core.Bool.{Bool, true, false}
use mathlib.Core.List.{List, [], ◌∷◌, map}
use mathlib.Core.Option.{Option, none, some}
use monierave.Base.Tests.{Bool-cases, some_eq, ltb, if◌then◌else◌}
use monierave.Base.Lists.{select, find_first, length, Every, Every-weaken}

module _ {A B : Type 0} (f : A → Option B) where
  -- `SELECT … FROM … WHERE …`, a row at a time: the row that `f` makes of it, if any.
  unfoldable pub select_rows : List A → List B
  select_rows [] = []
  select_rows (x ∷ xs) = let rest = select_rows xs in elim (f x) [ none ↦ rest | some y ↦ y ∷ rest ]

  one_more :
      (o : Option B) (rest : List B)
      → (length (elim o as (λ _. List B) [ none ↦ rest | some y ↦ y ∷ rest ]) ≡ 0)
        ↔ ((o ≡ none) × (length rest ≡ 0))
  one_more none rest = (λ h. (refl, h), λ h. h.1)
  one_more (some y) rest = (λ h. cc, λ (h, _). cc)

  -- No row comes out where none of the table makes one, and conversely.
  pub select_rows-Every : (xs : List A) → (length (select_rows xs) ≡ 0) ↔ Every (λ x. f x ≡ none) xs
  unfolding select_rows
  select_rows-Every [] = (λ _. tt, λ _. refl)
  select_rows-Every (x ∷ xs) =
      let (to, back) = select_rows-Every xs in
      let (split, join) = one_more (f x) (select_rows xs) in
      (λ h. let (a, b) = split h in (a, to b), λ (a, b). join (a, back b))

module _ {A : Type 0} (before : A → A → Bool) where
  unfoldable pub insert_row : A → List A → List A
  insert_row x [] = x ∷ []
  insert_row x (y ∷ ys) = let rest = insert_row x ys in if before y x then y ∷ rest else x ∷ y ∷ ys

  -- `ORDER BY …`, where `before` says which of two rows comes first.
  unfoldable pub order_by : List A → List A
  unfolding insert_row
  order_by [] = []
  order_by (x ∷ xs) = insert_row x (order_by xs)

  module _ (P : A → Type 0) where
    insert_by_cases :
        (b : Bool) (x y : A) (rest ys : List A)
        → (Every P rest ↔ (P x × Every P ys))
        → Every P (if b then y ∷ rest else x ∷ y ∷ ys) ↔ (P x × (P y × Every P ys))
    insert_by_cases true x y rest ys h =
        (λ (py, k). ((h.0 k).0, (py, (h.0 k).1)), λ (px, (py, k)). (py, h.1 (px, k)))
    insert_by_cases false x y rest ys h = (λ k. k, λ k. k)

    Every-insert_row : (x : A) (xs : List A) → Every P (insert_row x xs) ↔ (P x × Every P xs)
    unfolding insert_row
    Every-insert_row x [] = (λ h. h, λ h. h)
    Every-insert_row x (y ∷ ys) =
        insert_by_cases (before y x) x y (insert_row x ys) ys (Every-insert_row x ys)

    -- Ordered rows are the same rows.
    pub Every-order_by : (xs : List A) → Every P (order_by xs) ↔ Every P xs
    unfolding order_by
    Every-order_by [] = (λ h. h, λ h. h)
    Every-order_by (x ∷ xs) =
        let (to, back) = Every-insert_row x (order_by xs) in
        let (there, here) = Every-order_by xs in
        (λ h. ((to h).0, there (to h).1), λ (p, h). back (p, here h))

module _ {A : Type 0} where
  -- `LIMIT n`
  unfoldable pub take : ℕ → List A → List A
  take zero xs = []
  take (suc n) [] = []
  take (suc n) (x ∷ xs) = x ∷ take n xs

  pub Every-take : (P : A → Type 0) (n : ℕ) (xs : List A) → Every P xs → Every P (take n xs)
  unfolding take
  Every-take P zero xs h = tt
  Every-take P (suc n) [] h = tt
  Every-take P (suc n) (x ∷ xs) (h, hs) = (h, Every-take P n xs hs)

  pub Every-select :
      (P : A → Type 0) (p : A → Bool) (xs : List A)
      → Every P xs
      → Every (λ x. P x × (p x ≡ true)) (select p xs)
  unfolding select
  Every-select P p [] h = tt
  Every-select P p (x ∷ xs) (h, hs) =
      let rest = Every-select P p xs hs in
      elim (Bool-cases (p x)) [ inl hit ↦ rw hit ((h, hit), rest) | inr miss ↦ rw miss rest ]

  pub Every-find_first :
      (P : A → Type 0) (p : A → Bool) (xs : List A) (a : A)
      → Every P xs
      → find_first p xs ≡ some a
      → P a
  unfolding find_first
  Every-find_first P p [] a h e = cc
  Every-find_first P p (x ∷ xs) a (h, hs) e = elim (Bool-cases (p x)) [
    | inl hit ↦ subst P (some_eq (rw hit at e)) h
    | inr miss ↦ Every-find_first P p xs a hs (rw miss at e)
  ]

  pub Every-map :
      {B : Type 0} (P : B → Type 0) (f : A → B) (xs : List A)
      → Every (λ x. P (f x)) xs
      → Every P (map f xs)
  Every-map P f [] h = tt
  Every-map P f (x ∷ xs) (h, hs) = (h, Every-map P f xs hs)

  pub Every-all : (P : A → Type 0) (xs : List A) → ((x : A) → P x) → Every P xs
  Every-all P [] f = tt
  Every-all P (x ∷ xs) f = (f x, Every-all P xs f)

module _ {A : Type 0} (key : A → ℕ) where
  abbrev newer : A → A → Bool
  newer x y = ltb (key y) (key x)

  -- No row's key is above the first one's.
  abbrev pub First : List A → Type 0
  First [] = Unit
  First (x ∷ xs) = Every (λ y. key y ≤ key x) xs

  First-insert : (x : A) (xs : List A) → First xs → First (insert_row newer x xs)
  unfolding insert_row
  First-insert x [] h = tt
  First-insert x (y ∷ ys) h = elim (Bool-cases (newer y x)) [
    | inl older ↦
        rw older ((Every-insert_row newer (λ z. key z ≤ key y) x ys).1 (ground (arith, older), h))
    | inr above ↦
        rw above
          (ground (arith, above), Every-weaken ys (λ z k. below (key z) (key y) (key x) k above) h)
  ]
    where
      below : (a b c : ℕ) → a ≤ b → ltb c b ≡ false → a ≤ c
      below a b c h k = ground arith

  -- `ORDER BY … DESC LIMIT 1` finds a greatest key.
  pub First-order_by : (xs : List A) → First (order_by newer xs)
  unfolding order_by
  First-order_by [] = tt
  First-order_by (x ∷ xs) = First-insert x (order_by newer xs) (First-order_by xs)

  pub greatest-Every :
      (xs ys : List A) (x : A) (n : ℕ)
      → order_by newer xs ≡ x ∷ ys
      → key x ≤ n
      → Every (λ y. key y ≤ n) xs
  greatest-Every xs ys x n e h = (Every-order_by newer (λ y. key y ≤ n) xs).0 (
      subst (Every (λ y. key y ≤ n)) (sym e)
        (h, Every-weaken ys (λ y k. omega arith) (subst First e (First-order_by xs))))
