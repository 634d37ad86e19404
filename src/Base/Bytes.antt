-- ===== src/Base/Bytes.antt =====
-- Go's comparison of byte slices.
use Prim.Native.Nat.{ℕ}
use mathlib.Core.Path.{◌≡◌, refl}
use mathlib.Core.Bool.{Bool, true, false, ◌&&◌}
use mathlib.Core.List.{List, [], ◌∷◌}
use native.Mathlib.Omega.{arith}
use monierave.Base.Tests.{◌==◌, ==_iff, and_true}

-- `bytes.Equal`
unfoldable pub bytes_equal : List ℕ → List ℕ → Bool
bytes_equal [] [] = true
bytes_equal [] (y ∷ ys) = false
bytes_equal (x ∷ xs) [] = false
bytes_equal (x ∷ xs) (y ∷ ys) = x == y && bytes_equal xs ys

pub bytes_equal_self : (xs : List ℕ) → bytes_equal xs xs ≡ true
unfolding bytes_equal
bytes_equal_self [] = refl
bytes_equal_self (x ∷ xs) = ground (arith, bytes_equal_self xs)

pub bytes_equal_eq : (xs ys : List ℕ) → bytes_equal xs ys ≡ true → xs ≡ ys
unfolding bytes_equal
bytes_equal_eq [] [] h = refl
bytes_equal_eq [] (y ∷ ys) h = cc
bytes_equal_eq (x ∷ xs) [] h = cc
bytes_equal_eq (x ∷ xs) (y ∷ ys) h =
    let (head, tail) = and_true {a = x == y} h in
    rw ((==_iff x y).0 head, bytes_equal_eq xs ys tail) refl
