-- ===== src/Base/Lists.antt =====
-- Lists as database tables: the first row that meets a test, an update of the rows that meet one,
-- and lengths in native numbers.
use Prim.Native.Nat.{ℕ, suc, ◌+◌}
use mathlib.Core.Path.{◌≡◌, refl}
use mathlib.Core.Bool.{Bool, true, ◌&&◌}
use mathlib.Core.Logic.{◌↔◌}
use mathlib.Core.List.{List, [], ◌∷◌, ◌++◌}
use mathlib.Core.Option
use mathlib.Core.Option.{Option, none, some}
use native.Mathlib.Omega.{arith}
use monierave.Base.Tests.{if◌then◌else◌}

module _ {ℓ} {A : Type ℓ} where
  abbrev pub length : List A → ℕ
  length [] = 0
  length (x ∷ xs) = suc (length xs)

  -- `SELECT … WHERE … LIMIT 1`
  unfoldable pub find_first : (A → Bool) → List A → Option A
  find_first p [] = none
  find_first p (x ∷ xs) = if p x then some x else find_first p xs

  -- `SELECT … WHERE …`
  unfoldable pub select : (A → Bool) → List A → List A
  select p [] = []
  select p (x ∷ xs) = let rest = select p xs in if p x then x ∷ rest else rest

  -- `UPDATE … SET … WHERE …`
  unfoldable pub update_where : (A → Bool) → (A → A) → List A → List A
  update_where p f [] = []
  update_where p f (x ∷ xs) = (if p x then f x else x) ∷ update_where p f xs

  abbrev pub or_else : Option A → Option A → Option A
  or_else none o = o
  or_else (some a) o = some a

  pub or_else-none : (o : Option A) → or_else o none ≡ o
  or_else-none none = refl
  or_else-none (some a) = refl

  pub find_first-append :
      (p : A → Bool) (xs ys : List A)
      → find_first p (xs ++ ys) ≡ or_else (find_first p xs) (find_first p ys)
  unfolding find_first
  find_first-append p [] ys = refl
  find_first-append p (x ∷ xs) ys = ground (arith, find_first-append p xs ys)

  pub find_first_last :
      (p : A → Bool) (xs : List A) (y : A) → p y ≡ true → find_first p (xs ++ y ∷ []) ≡ none → ⊥
  unfolding find_first
  find_first_last p [] y h k = ground arith
  find_first_last p (x ∷ xs) y h k = ground (arith, find_first_last p xs y h)

  -- An update that leaves the searched columns alone changes the row that is found, in place.
  pub find_first-update_where :
      (q p : A → Bool) (f : A → A) (xs : List A)
      → ((x : A) → q (f x) ≡ q x)
      → find_first q (update_where p f xs)
        ≡ Option.map (λ x. if p x then f x else x) (find_first q xs)
  unfolding find_first update_where
  find_first-update_where q p f [] h = refl
  find_first-update_where q p f (x ∷ xs) h = ground (arith, h x, find_first-update_where q p f xs h)

  pub find_first_sound :
      (p : A → Bool) (xs : List A) (a : A) → find_first p xs ≡ some a → p a ≡ true
  unfolding find_first
  find_first_sound p [] a h = cc
  find_first_sound p (x ∷ xs) a h = ground (arith, find_first_sound p xs a)

  -- The row that is found, if it meets a second test as well.
  pub find_first_narrow :
      (p q : A → Bool) (xs : List A) (a : A)
      → find_first p xs ≡ some a
      → q a ≡ true
      → find_first (λ x. p x && q x) xs ≡ some a
  unfolding find_first
  find_first_narrow p q [] a h k = h
  find_first_narrow p q (x ∷ xs) a h k = ground (arith, find_first_narrow p q xs a, k)

  pub find_first-select :
      (q p : A → Bool) (xs : List A) (a : A)
      → ((x : A) → q x ≡ true → p x ≡ true)
      → find_first q xs ≡ some a
      → find_first q (select p xs) ≡ some a
  unfolding find_first select
  find_first-select q p [] a h e = e
  find_first-select q p (x ∷ xs) a h e = ground (arith, h x, find_first-select q p xs a h)

  -- How many rows meet a test.
  unfoldable pub count_where : (A → Bool) → List A → ℕ
  count_where p [] = 0
  count_where p (x ∷ xs) = (if p x then 1 else 0) + count_where p xs

  pub count_where-append :
      (p : A → Bool) (xs ys : List A)
      → count_where p (xs ++ ys) ≡ count_where p xs + count_where p ys
  unfolding count_where
  count_where-append p [] ys = omega arith
  count_where-append p (x ∷ xs) ys = omega (arith, count_where-append p xs ys)

  pub count_where-update_where :
      (q p : A → Bool) (f : A → A) (xs : List A)
      → ((x : A) → q (f x) ≡ q x)
      → count_where q (update_where p f xs) ≡ count_where q xs
  unfolding count_where update_where
  count_where-update_where q p f [] h = refl
  count_where-update_where q p f (x ∷ xs) h =
      ground (arith, h x, count_where-update_where q p f xs h)

  pub count_where-none :
      (p : A → Bool) (xs : List A) → find_first p xs ≡ none → count_where p xs ≡ 0
  unfolding count_where find_first
  count_where-none p [] h = refl
  count_where-none p (x ∷ xs) h = ground (arith, count_where-none p xs)

  abbrev pub Every {κ} : (A → Type κ) → List A → Type κ
  Every P [] = Unit
  Every P (x ∷ xs) = P x × Every P xs

  pub Every-append {κ} :
      (P : A → Type κ) (xs ys : List A) → Every P xs → Every P ys → Every P (xs ++ ys)
  Every-append P [] ys h k = k
  Every-append P (x ∷ xs) ys h k = (h.0, Every-append P xs ys h.1 k)

  pub Every-weaken {κ ι} :
      {P : A → Type κ} {Q : A → Type ι} (xs : List A)
      → ((x : A) → P x → Q x)
      → Every P xs
      → Every Q xs
  Every-weaken [] f h = tt
  Every-weaken (x ∷ xs) f h = (f x h.0, Every-weaken xs f h.1)

  pub Every-iff {κ ι} :
      {P : A → Type κ} {Q : A → Type ι} (xs : List A)
      → ((x : A) → P x ↔ Q x)
      → Every P xs ↔ Every Q xs
  Every-iff xs f = (Every-weaken xs (λ x. (f x).0), Every-weaken xs (λ x. (f x).1))

  pub Every-both {κ ι} :
      (P : A → Type κ) (Q : A → Type ι) (xs : List A)
      → Every P xs
      → Every Q xs
      → Every (λ x. P x × Q x) xs
  Every-both P Q [] h k = tt
  Every-both P Q (x ∷ xs) (h, hs) (k, ks) = ((h, k), Every-both P Q xs hs ks)
