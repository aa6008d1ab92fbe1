-- ===== src/Policies/Retry/Exact.antt =====
-- The exponential backoff against its formula, without overflow.
use native.Mathlib.Nat.{pow-le-pow_right, mul-le-mul, mul-le-mul_left}
use zhir.Prelude.{
  ℕ, ◌-◌, ◌*◌, ◌^◌, ◌<◌, ◌≤◌, ◌≡◌, sym, ◌∙◌, min, arith, true, false, Bool-cases, inl, inr, ltb,
}
use zhir.Error.{ok, >>-eq-ok, refuse_if, ok-injective}
use zhir.Policies.Retry.{
  Duration, second, as_nanos, u128_bound, clamp_u32, delay_nanos, from_nanos, Backoff, exponential,
  exponential_delay, exceeds, is_zero,
}

-- What `Duration::new` keeps.
abbrev pub IsDuration : Duration → Type 0
IsDuration d = (d.secs < 2 ^ 64) × (d.nanos < second)

nanos_bound : (d : Duration) → IsDuration d → as_nanos d < 2 ^ 64 * second
nanos_bound d h = omega (arith, h.0, h.1)

delay_nanos-small : (a m s : ℕ) → m < u128_bound → s < 128 → delay_nanos a m s ≡ min (a * 2 ^ s) m
unfolding delay_nanos
delay_nanos-small a m s bound small = ground arith

delay_nanos-large : (a m s : ℕ) → 128 ≤ s → delay_nanos a m s ≡ m
unfolding delay_nanos
delay_nanos-large a m s large = ground arith

product_bound : (a e : ℕ) → 0 < a → 128 ≤ e → u128_bound ≤ a * 2 ^ e
product_bound a e pos large =
    mul-le-mul {n₁ = 1} {m₁ = u128_bound} {n₂ = a} pos (pow-le-pow_right (omega arith) large)

from_nanos-as_nanos : (n : ℕ) → n < 2 ^ 64 * second → as_nanos (from_nanos n) ≡ n
from_nanos-as_nanos n bound = omega arith

min-le : (a b : ℕ) → min a b ≤ b
min-le a b = ground arith

min_mono : (a c b : ℕ) → a ≤ c → min a b ≤ min c b
min_mono a c b h = ground arith

min-right : (a b : ℕ) → b ≤ a → min a b ≡ b
min-right a b h = ground arith

delay_nanos-exact :
    (a m n : ℕ) → 0 < a → m < u128_bound → delay_nanos a m (clamp_u32 n) ≡ min (a * 2 ^ n) m
delay_nanos-exact a m n pos bound = elim (Bool-cases (ltb n 128)) [
  | inl small ↦
      let same_shift : clamp_u32 n ≡ n = ground arith in
      rw same_shift (delay_nanos-small a m n bound (ground arith))
  | inr large ↦
      delay_nanos-large a m (clamp_u32 n) (ground arith)
      ∙ sym (min-right (a * 2 ^ n) m (omega (arith, product_bound a n pos (ground arith), bound)))
]

is_zero-nanos : (i : Duration) → is_zero i ≡ true → as_nanos i ≡ 0
is_zero-nanos i h = ground arith

not_zero-nanos : (i : Duration) → is_zero i ≡ false → 0 < as_nanos i
not_zero-nanos i h = ground arith

min-zero : (a b e : ℕ) → a ≡ 0 → 0 ≡ min (a * e) b
min-zero a b e h = rw h (ground arith)

exponential_delay-exact :
    (i m : Duration) (n : ℕ)
    → IsDuration m
    → as_nanos (exponential_delay i m n) ≡ min (as_nanos i * 2 ^ (n - 1)) (as_nanos m)
unfolding exponential_delay
exponential_delay-exact i m n h = elim (Bool-cases (is_zero i)) [
  | inl none_left ↦
      rw none_left (min-zero (as_nanos i) (as_nanos m) (2 ^ (n - 1)) (is_zero-nanos i none_left))
  | inr some_left ↦
      let exact =
        delay_nanos-exact (as_nanos i) (as_nanos m) (n - 1) (not_zero-nanos i some_left)
          (omega (arith, nanos_bound m h)) in
      let nanos = delay_nanos (as_nanos i) (as_nanos m) (clamp_u32 (n - 1)) in
      rw some_left (
        from_nanos-as_nanos nanos
          (omega (arith, exact, min-le (as_nanos i * 2 ^ (n - 1)) (as_nanos m), nanos_bound m h))
        ∙ exact)
]

-- Whatever the attempt, the delay of an exponential backoff is the initial delay times a power
-- of two, capped at the maximum: the overflow of the shift, of the product or of the
-- conversions never shows. The maximum is a duration.
pub exponential-exact :
    (i m : Duration) (b : Backoff) (n : ℕ)
    → IsDuration m
    → exponential i m ≡ ok b
    → as_nanos (b n) ≡ min (as_nanos i * 2 ^ (n - 1)) (as_nanos m)
unfolding exponential
exponential-exact i m b n h done =
    let (_, built) = >>-eq-ok (refuse_if (exceeds i m) _) _ done in
    rw (← ok-injective built) (exponential_delay-exact i m n h)

-- The delays of an exponential backoff do not decrease with the attempts and never exceed the
-- maximum, which is a duration.
pub exponential_mono :
    (i m : Duration) (b : Backoff) (n k : ℕ)
    → IsDuration m
    → exponential i m ≡ ok b
    → n ≤ k
    → (as_nanos (b n) ≤ as_nanos (b k)) × (as_nanos (b k) ≤ as_nanos m)
exponential_mono i m b n k h done le =
    let first = exponential-exact i m b n h done in
    let second_wait = exponential-exact i m b k h done in
    let grows : as_nanos i * 2 ^ (n - 1) ≤ as_nanos i * 2 ^ (k - 1) =
      mul-le-mul_left (as_nanos i) (pow-le-pow_right (omega arith) (omega arith)) in
    (
      rw (first, second_wait) (min_mono _ _ (as_nanos m) grows),
      rw second_wait (min-le (as_nanos i * 2 ^ (k - 1)) (as_nanos m)),
    )
