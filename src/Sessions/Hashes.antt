-- ===== src/Sessions/Hashes.antt =====
-- The comparison of hashes is equality.
use monierave.Base.{
  ℕ, ◌≡◌, refl, bytes_equal, bytes_equal_self, bytes_equal_eq, List, ◌==◌, ==_iff, length, true,
  and_true, ◌↔◌, ◌&&◌, subst,
}
use monierave.Sessions.{constant_time_hash_equal}

pub constant_time_hash_equal_iff :
    (xs ys : List ℕ) → (constant_time_hash_equal xs ys ≡ true) ↔ (xs ≡ ys)
unfolding constant_time_hash_equal
constant_time_hash_equal_iff xs ys = (
  λ h. bytes_equal_eq xs ys (and_true {a = length xs == length ys} h).1,
  λ e.
      subst (λ zs. (length xs == length zs && bytes_equal xs zs) ≡ true) e
        (rw (bytes_equal_self xs, (==_iff (length xs) (length xs)).1 refl) refl),
)
