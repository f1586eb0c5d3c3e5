-- ===== src/Scheduler/Backoff.antt =====
-- src/zero/app/retry_backoff.py: how long a failed task waits. The hint in the error text and the
-- whole seconds that the jitter adds are given: a regular expression and a random draw find them.
use native.Mathlib.Nat.{pow-le-pow_right, one-le-pow}
use zero_agent_dev_telegram.Common.{
  ◌≡◌, refl, arith, ℕ, suc, ◌+◌, ◌-◌, ◌*◌, ◌/◌, ◌^◌, ◌≤◌, ◌<◌, Option, none, some, ltb,
  if◌then◌else◌, Bool-cases, inl, inr,
}

abbrev pub retry_base_delay_seconds : ℕ
retry_base_delay_seconds = 60

abbrev pub retry_max_delay_seconds : ℕ
retry_max_delay_seconds = 3600

abbrev pub min : ℕ → ℕ → ℕ
min a b = if ltb b a then b else a

-- The base delay; `max(0, attempt_number - 1)` is the subtraction on ℕ.
unfoldable pub base_delay : ℕ → ℕ
base_delay attempt_number =
    min (retry_base_delay_seconds * 2 ^ min (attempt_number - 1) 16) retry_max_delay_seconds

unfoldable pub compute_retry_delay : (attempt_number : ℕ) → Option ℕ → (ℕ → ℕ) → ℕ
unfolding base_delay
compute_retry_delay attempt_number (some honored) jitter = min honored retry_max_delay_seconds
compute_retry_delay attempt_number none jitter =
    let base = base_delay attempt_number in min (base + jitter base) retry_max_delay_seconds

large_power : (n : ℕ) → 16 < n → 65536 ≤ 2 ^ n
large_power n h =
    let p : 2 ^ 16 ≤ 2 ^ n =
      pow-le-pow_right {n = 2} (omega arith) {i = 16} {j = n} (omega arith) in
    omega (arith, p)

-- The cap on the exponent changes nothing: six doublings reach the cap on the delay.
base_delay-doubles :
    (attempt_number : ℕ) → base_delay attempt_number ≡ min (60 * 2 ^ (attempt_number - 1)) 3600
unfolding base_delay
base_delay-doubles n = elim (Bool-cases (ltb 16 (n - 1))) [
  | inl many ↦ ground (arith, large_power (n - 1))
  | inr few ↦ ground arith
]

base_delay-bounds :
    (attempt_number : ℕ)
    → (60 ≤ base_delay attempt_number)
      × (base_delay attempt_number ≤ 3600)
      × (base_delay attempt_number ≤ base_delay (suc attempt_number))
base_delay-bounds n =
    let one : 1 ≤ 2 ^ (n - 1) = one-le-pow (n - 1) 2 (omega arith) in
    let grows : 2 ^ (n - 1) ≤ 2 ^ n = pow-le-pow_right {n = 2} (omega arith) (omega arith) in
    ground (arith, base_delay-doubles n, base_delay-doubles (suc n), one, grows)

-- The wait before a retry without a hint: the base doubles from 60 seconds with each attempt and stops
-- at 3600, whatever the cap on the exponent; the delay is the base and at most half of it on top, if
-- the jitter is, and at most 3600 seconds. With a hint it is the hint, or 3600 seconds if that is less.
pub compute_retry_delay-bounds :
    (attempt_number honored : ℕ) (jitter : ℕ → ℕ)
    → ((base : ℕ) → jitter base ≤ base / 2)
    → (base_delay attempt_number ≡ min (60 * 2 ^ (attempt_number - 1)) 3600)
      × (base_delay attempt_number ≤ base_delay (suc attempt_number))
      × (60 ≤ compute_retry_delay attempt_number none jitter)
      × (base_delay attempt_number ≤ compute_retry_delay attempt_number none jitter)
      × (2 * compute_retry_delay attempt_number none jitter ≤ 3 * base_delay attempt_number)
      × (compute_retry_delay attempt_number none jitter ≤ 3600)
      × (compute_retry_delay attempt_number (some honored) jitter ≡ min honored 3600)
unfolding compute_retry_delay
compute_retry_delay-bounds n honored jitter half =
    let (low, high, grows) = base_delay-bounds n in
    (
      base_delay-doubles n,
      grows,
      ground (arith, half (base_delay n)),
      ground (arith, half (base_delay n)),
      ground (arith, half (base_delay n)),
      ground (arith, half (base_delay n)),
      refl,
    )
