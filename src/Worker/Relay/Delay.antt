-- ===== src/Worker/Relay/Delay.antt =====
-- How long the relay waits before it tries an event again.
use monierave.Base.{
  ℕ, zero, suc, ◌+◌, ◌*◌, ◌/◌, ◌%◌, ◌≤◌, ◌≡◌, refl, Option, none, some, subst, arith,
}
use native.Mathlib.Omega.{mod_fact}
use monierave.Models.Tables.{Db}
use monierave.Store.{random_below, pure, ◌>>=◌}
use monierave.Store.Rules.{Runs, AnyError}
use monierave.Worker.Relay.{
  outbox_retry_delay, retry_base, power_of_two, smaller, nanoseconds, drawn_or_zero,
}

power_of_two_positive : (n : ℕ) → 1 ≤ power_of_two n
unfolding power_of_two
power_of_two_positive zero = omega arith
power_of_two_positive (suc n) = let below = power_of_two_positive n in omega (arith, below)

power_of_two_monotone : (n m : ℕ) → n ≤ m → power_of_two n ≤ power_of_two m
unfolding power_of_two
power_of_two_monotone zero m h = power_of_two_positive m
power_of_two_monotone (suc n) zero h = absurd (ground arith)
power_of_two_monotone (suc n) (suc m) h =
    let below = power_of_two_monotone n m (omega arith) in omega (arith, below)

smaller_bound : (a b : ℕ) → smaller a b ≤ b
smaller_bound a b = ground arith

largest : power_of_two 8 ≡ 256
unfolding power_of_two
largest = refl

-- Without the jitter: from one second to 256, so the limit of five minutes is never met.
retry_base-bounds :
    (attempt : ℕ)
    → (retry_base attempt ≡ power_of_two (smaller attempt 8) * nanoseconds)
      × (nanoseconds ≤ retry_base attempt)
      × (retry_base attempt ≤ 256 * nanoseconds)
unfolding retry_base
retry_base-bounds attempt =
    let low = power_of_two_positive (smaller attempt 8) in
    let high = power_of_two_monotone (smaller attempt 8) 8 (smaller_bound attempt 8) in
    let top = largest in
    (ground (arith, low, high, top), ground (arith, low, high, top), ground (arith, low, high, top))

jitter_bound :
    (base : ℕ) (o : Option ℕ)
    → drawn_or_zero (elim o [ none ↦ none | some n ↦ some (n % (base / 5 + 1)) ]) ≤ base / 5
jitter_bound base none = omega arith
jitter_bound base (some n) =
    let small = mod_fact n (base / 5) in
    subst (λ k. n % k ≤ base / 5) (one_more (base / 5)) (omega (arith, small))
  where
    one_more : (k : ℕ) → suc k ≡ k + 1
    one_more k = omega arith

-- The wait before the next attempt is its base, which doubles with every attempt from one second up to
-- 256 seconds, and up to a fifth of it on top: one second at least, and 307.2 seconds at most.
pub outbox_retry_delay-bounds :
    (attempt : ℕ) (d : Db)
    → Runs AnyError
        (λ delay d'.
          (power_of_two (smaller attempt 8) * nanoseconds ≤ delay)
          × (5 * delay ≤ 6 * power_of_two (smaller attempt 8) * nanoseconds)
          × (nanoseconds ≤ delay)
          × (delay ≤ 307_200_000_000)
          × (d' ≡ d))
        (outbox_retry_delay attempt)
        d
unfolding outbox_retry_delay random_below ◌>>=◌ pure
outbox_retry_delay-bounds attempt d = record {
  at = λ w.
      let (base, low, high) = retry_base-bounds attempt in
      let extra = jitter_bound (retry_base attempt) (w.numbers w.drawn) in
      (
        omega (arith, base, extra),
        omega (arith, base, extra),
        omega (arith, low),
        omega (arith, high, extra),
        refl,
      );
}
