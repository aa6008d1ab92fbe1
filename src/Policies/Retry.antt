-- ===== src/Policies/Retry.antt =====
-- crates/zhir-policies/src/retry.rs: retry budgets and backoff. A `Duration` has whole seconds in a
-- u64 and nanoseconds below 10^9; the arithmetic on its nanoseconds is on a u128.
pub mod Exact
use zhir.Prelude.{
  ℕ, ◌+◌, ◌-◌, ◌*◌, ◌/◌, ◌%◌, ◌^◌, ◌<◌, min, Bool, ◌&&◌, ◌||◌, Option, none, some, ◌==◌, ltb,
  if◌then◌else◌,
}
use zhir.Error.{Result, ok, err, invalid, refuse_if, ◌>>=◌, ◌>>◌}

pub record Duration : Type 0 where
  pub secs : ℕ
  pub nanos : ℕ

abbrev pub second : ℕ
second = 1000000000

abbrev pub u128_bound : ℕ
u128_bound = 2 ^ 128

abbrev pub zero_duration : Duration
zero_duration = record { secs = 0; nanos = 0 }

abbrev pub as_nanos : Duration → ℕ
as_nanos d = d.secs * second + d.nanos

abbrev pub is_zero : Duration → Bool
is_zero d = d.secs == 0 && d.nanos == 0

-- `a > b`
abbrev pub exceeds : Duration → Duration → Bool
exceeds a b = ltb b.secs a.secs || (a.secs == b.secs && ltb b.nanos a.nanos)

-- `u32::try_from(n).unwrap_or(u32::MAX)`
abbrev pub clamp_u32 : ℕ → ℕ
clamp_u32 n = if ltb n (2 ^ 32) then n else 2 ^ 32 - 1

-- `1u128.checked_shl(shift)`
abbrev pub checked_shl : ℕ → Option ℕ
checked_shl shift = if ltb shift 128 then some (2 ^ shift) else none

-- `initial.checked_mul(factor)` on a u128
abbrev pub checked_mul : ℕ → Option ℕ → Option ℕ
checked_mul initial none = none
checked_mul initial (some factor) =
    if ltb (initial * factor) u128_bound then some (initial * factor) else none

abbrev pub unwrap_or : Option ℕ → ℕ → ℕ
unwrap_or none n = n
unwrap_or (some m) n = m

-- The nanoseconds to wait, from those of the two bounds.
unfoldable pub delay_nanos : ℕ → ℕ → ℕ → ℕ
delay_nanos initial maximum shift =
    min (unwrap_or (checked_mul initial (checked_shl shift)) maximum) maximum

-- `Duration::new((nanos / 1_000_000_000) as u64, (nanos % 1_000_000_000) as u32)`
abbrev pub from_nanos : ℕ → Duration
from_nanos n = record { secs = n / second % 2 ^ 64; nanos = n % second % 2 ^ 32 }

abbrev pub Backoff : Type 0
Backoff = ℕ → Duration

-- `Backoff::fixed`
abbrev pub fixed : Duration → Backoff
fixed delay failed_attempt = delay

-- The closure of `Backoff::exponential`.
unfoldable pub exponential_delay : Duration → Duration → Backoff
unfolding delay_nanos
exponential_delay initial maximum failed_attempt =
    if is_zero initial
    then zero_duration
    else from_nanos
        (delay_nanos (as_nanos initial) (as_nanos maximum) (clamp_u32 (failed_attempt - 1)))

-- `Backoff::exponential`
unfoldable pub exponential : Duration → Duration → Result Backoff
unfolding exponential_delay
exponential initial maximum = do
  refuse_if (exceeds initial maximum) (invalid "initial retry delay exceeds maximum")
  ok (exponential_delay initial maximum)

pub record RetryPolicy : Type 0 where
  pub max_attempts : ℕ
  pub backoff : Backoff

-- `RetryPolicy::new`
unfoldable pub new_policy : ℕ → Result RetryPolicy
new_policy max_attempts = do
  refuse_if (max_attempts == 0) (invalid "retry attempts must be positive")
  ok (record { max_attempts = max_attempts; backoff = fixed zero_duration })

-- `RetryPolicy::backoff`
abbrev pub with_backoff : RetryPolicy → Backoff → RetryPolicy
with_backoff p backoff = record p { backoff = backoff }

-- `RetryPolicy::delay_after`
unfoldable pub delay_after : RetryPolicy → ℕ → Option Duration
delay_after p failed_attempt =
    if ltb 0 failed_attempt && ltb failed_attempt p.max_attempts
    then some (p.backoff failed_attempt)
    else none
