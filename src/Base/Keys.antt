-- ===== src/Base/Keys.antt =====
-- Tables with a primary key: no two rows have one key, so the first row that is found is the row.
use Prim.Native.Nat.{ℕ}
use mathlib.Core.Path.{◌≡◌, refl}
use mathlib.Core.Bool.{Bool, true}
use mathlib.Core.List.{List, [], ◌∷◌, ◌++◌}
use mathlib.Core.Logic.{inl, inr}
use mathlib.Core.Option
use mathlib.Core.Option.{Option, none, some}
use native.Mathlib.Omega.{arith}
use monierave.Base.Tests.{◌==◌, if◌then◌else◌, Bool-cases}
use monierave.Base.Lists.{
  Every, Every-weaken, find_first, update_where, find_first-append, find_first-update_where,
}

module _ {A : Type 0} (key : A → ℕ) where
  abbrev pub by_key : ℕ → List A → Option A
  by_key k = find_first (λ a. key a == k)

  abbrev pub UniqueKeys : List A → Type 0
  UniqueKeys [] = Unit
  UniqueKeys (x ∷ xs) = (by_key (key x) xs ≡ none) × UniqueKeys xs

  -- A row that meets a test which fixes its key is the row of that key.
  pub by_key-of_find_first :
      (p : A → Bool) (k : ℕ) (xs : List A) (a : A)
      → ((x : A) → p x ≡ true → key x ≡ k)
      → UniqueKeys xs
      → find_first p xs ≡ some a
      → by_key k xs ≡ some a
  unfolding find_first
  by_key-of_find_first p k [] a h u e = cc
  by_key-of_find_first p k (x ∷ xs) a h u e = elim (Bool-cases (p x)) [
    | inl yes_x ↦ ground (arith, h x yes_x)
    | inr no_x ↦ ground (arith, by_key-of_find_first p k xs a h u.1, u.0)
  ]

  pub by_key-key : (k : ℕ) (xs : List A) (a : A) → by_key k xs ≡ some a → key a ≡ k
  unfolding find_first
  by_key-key k [] a e = cc
  by_key-key k (x ∷ xs) a e = ground (arith, by_key-key k xs a)

  pub by_key-update_where :
      (k : ℕ) (p : A → Bool) (f : A → A) (xs : List A)
      → ((x : A) → key (f x) ≡ key x)
      → by_key k (update_where p f xs) ≡ Option.map (λ x. if p x then f x else x) (by_key k xs)
  by_key-update_where k p f xs h = find_first-update_where (λ a. key a == k) p f xs (λ x. rw (h x))

  pub UniqueKeys-update_where :
      (p : A → Bool) (f : A → A) (xs : List A)
      → ((x : A) → key (f x) ≡ key x)
      → UniqueKeys xs
      → UniqueKeys (update_where p f xs)
  unfolding update_where
  UniqueKeys-update_where p f [] h u = tt
  UniqueKeys-update_where p f (x ∷ xs) h u =
      ground
        (arith, h x, by_key-update_where (key x) p f xs h, UniqueKeys-update_where p f xs h u.1)

  pub UniqueKeys-append :
      (xs : List A) (y : A) → by_key (key y) xs ≡ none → UniqueKeys xs → UniqueKeys (xs ++ y ∷ [])
  unfolding find_first
  UniqueKeys-append [] y e u = (refl, tt)
  UniqueKeys-append (x ∷ xs) y e u =
      ground (arith, find_first-append (λ a. key a == key x) xs (y ∷ []), UniqueKeys-append xs y)

  -- Whatever the test that found it, a row is the row of its key.
  pub by_key-of_found :
      (p : A → Bool) (xs : List A) (a : A)
      → UniqueKeys xs
      → find_first p xs ≡ some a
      → by_key (key a) xs ≡ some a
  unfolding find_first
  by_key-of_found p [] a u e = cc
  by_key-of_found p (x ∷ xs) a u e = elim (Bool-cases (p x)) [
    | inl yes_x ↦ ground arith
    | inr no_x ↦ ground (arith, by_key-of_found p xs a u.1, u.0)
  ]

  -- Every row is the row of its key.
  pub Every-by_key : (xs : List A) → UniqueKeys xs → Every (λ x. by_key (key x) xs ≡ some x) xs
  unfolding find_first
  Every-by_key [] u = tt
  Every-by_key (x ∷ xs) (new, u) =
      (ground arith, Every-weaken xs (λ y e. skipped y e) (Every-by_key xs u))
    where
      skipped : (y : A) → by_key (key y) xs ≡ some y → by_key (key y) (x ∷ xs) ≡ some y
      skipped y e = ground (arith, new)
