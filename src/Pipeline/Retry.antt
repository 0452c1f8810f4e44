-- ===== src/Pipeline/Retry.antt =====
-- Retry bookkeeping of worker/pipeline.py: the backoff, the due test and the queue's reset. Delays
-- are in seconds, times in microseconds.
use localplaud.Prelude.{
  ℕ, ◌+◌, ◌-◌, ◌*◌, ◌^◌, ◌≤◌, ◌<◌, min, max, ◌≡◌, ◌⊎◌, inl, inr, refl, Bool-cases, Bool, true,
  false, ◌||◌, Option, none, some, arith, ltb, leb, if◌then◌else◌,
}
use native.Mathlib.Nat.{one-le-pow, pow-le-pow_right, mul-pos, mul-le-mul_left}
use localplaud.Pipeline.Recording.{PlaudFile}

-- The retry settings of PipelineConfig.
pub record RetrySettings : Type 0 where
  pub retry_max_attempts : ℕ
  pub retry_base_seconds : ℕ
  pub retry_max_seconds : ℕ
  pub retry_exhausted_interval_seconds : ℕ

abbrev pub second : ℕ
second = 1000000

-- `_retry_delay_seconds`; it is called with a count of at least one.
unfoldable pub retry_delay_seconds : ℕ → RetrySettings → Option ℕ
retry_delay_seconds count s =
    if leb s.retry_max_attempts 0 || leb s.retry_max_attempts count
    then (if ltb 0 s.retry_exhausted_interval_seconds
        then some s.retry_exhausted_interval_seconds
        else none)
    else some (min s.retry_max_seconds (s.retry_base_seconds * 2 ^ min (count - 1) 20))

abbrev pub due_at : ℕ → Option ℕ → Option ℕ
due_at now none = none
due_at now (some delay) = some (now + delay * second)

-- `_schedule_pipeline_retry`
unfoldable pub schedule_pipeline_retry : ℕ → RetrySettings → PlaudFile → PlaudFile
schedule_pipeline_retry now s row =
    let count = row.pipeline_retry_count + 1 in
    record row {
      pipeline_retry_count = count;
      pipeline_last_failure_at = some now;
      pipeline_next_retry_at = due_at now (retry_delay_seconds count s);
    }

-- `reset_pipeline_retry`
unfoldable pub reset_pipeline_retry : PlaudFile → PlaudFile
reset_pipeline_retry row = record row {
  pipeline_retry_count = 0;
  pipeline_next_retry_at = none;
  pipeline_last_failure_at = none;
}

-- `_retry_not_due`
unfoldable pub retry_not_due : ℕ → Option ℕ → RetrySettings → ℕ → Bool
retry_not_due count (some due) s now = ltb now due
retry_not_due count none s now = leb s.retry_max_attempts count

-- The ranges that PipelineConfig validates.
pub record IsConfigured (s : RetrySettings) : Type 0 where
  pub base : 1 ≤ s.retry_base_seconds
  pub maximum : 1 ≤ s.retry_max_seconds

pow_pos : (n : ℕ) → 1 ≤ 2 ^ n
pow_pos n = one-le-pow n 2 (omega arith)

scaled : (a b : ℕ) → 1 ≤ a → 1 ≤ b → 1 ≤ a * b
scaled a b p q = omega (arith, mul-pos {m = a} {n = b} (omega (arith, p)) (omega (arith, q)))

min_mono : (m a b : ℕ) → a ≤ b → min m a ≤ min m b
min_mono m a b h = omega arith

mul_mono : (m a b : ℕ) → a ≤ b → m * a ≤ m * b
mul_mono m a b h = mul-le-mul_left {m = a} {n = b} m h

-- A scheduled delay is at least one second and never above the larger of the two configured
-- limits, for every count.
retry_delay_bounds :
    (count delay : ℕ) (s : RetrySettings)
    → IsConfigured s
    → retry_delay_seconds count s ≡ some delay
    → (1 ≤ delay) × (delay ≤ max s.retry_max_seconds s.retry_exhausted_interval_seconds)
unfolding retry_delay_seconds
retry_delay_bounds count delay s c h = ground (
  arith,
  scaled s.retry_base_seconds (2 ^ min (count - 1) 20) c.base (pow_pos (min (count - 1) 20)),
  c.maximum,
)

-- Within the fast budget a later failure never waits less than an earlier one.
pub retry_delay_mono :
    (count count' : ℕ) (s : RetrySettings)
    → count ≤ count'
    → count' < s.retry_max_attempts
    → (d d' : ℕ) × (retry_delay_seconds count s ≡ some d)
      × (retry_delay_seconds count' s ≡ some d')
      × (d ≤ d')
unfolding retry_delay_seconds
retry_delay_mono count count' s le lt =
    let fewer : leb s.retry_max_attempts 0 ≡ false = ground arith in
    let inside : leb s.retry_max_attempts count ≡ false = ground arith in
    let inside' : leb s.retry_max_attempts count' ≡ false = ground arith in
    rw (fewer, inside, inside', retry_delay_seconds)
      (
        _,
        _,
        refl,
        refl,
        min_mono s.retry_max_seconds _ _
            (mul_mono s.retry_base_seconds _ _ (pow-le-pow_right (omega arith) (omega arith))),
      )

pub schedule-due :
    (now later : ℕ) (s : RetrySettings) (row : PlaudFile)
    → let r = schedule_pipeline_retry now s row in
      retry_not_due r.pipeline_retry_count r.pipeline_next_retry_at s later
      ≡ elim (retry_delay_seconds (row.pipeline_retry_count + 1) s) [
        | none ↦ true
        | some delay ↦ ltb later (now + delay * second)
      ]
unfolding schedule_pipeline_retry retry_not_due retry_delay_seconds
schedule-due now later s row = ground arith

-- While the fast budget lasts, the n-th failure waits for the base doubled n - 1 times, twenty times
-- at most, but no longer than the maximum.
abbrev pub IsFast : RetrySettings → ℕ → ℕ → ℕ → PlaudFile → Type 0
IsFast s now later n r =
    (n < s.retry_max_attempts)
    × (retry_not_due r.pipeline_retry_count r.pipeline_next_retry_at s later
        ≡ ltb later
            (now + min s.retry_max_seconds (s.retry_base_seconds * 2 ^ min (n - 1) 20) * second))

abbrev pub IsSlow : RetrySettings → ℕ → ℕ → ℕ → PlaudFile → Type 0
IsSlow s now later n r =
    (s.retry_max_attempts ≤ n)
    × (1 ≤ s.retry_exhausted_interval_seconds)
    × (retry_not_due r.pipeline_retry_count r.pipeline_next_retry_at s later
        ≡ ltb later (now + s.retry_exhausted_interval_seconds * second))

abbrev pub IsStopped : RetrySettings → ℕ → ℕ → PlaudFile → Type 0
IsStopped s later n r =
    (s.retry_max_attempts ≤ n)
    × (s.retry_exhausted_interval_seconds ≡ 0)
    × (retry_not_due r.pipeline_retry_count r.pipeline_next_retry_at s later ≡ true)

abbrev pub IsPaced : RetrySettings → ℕ → ℕ → ℕ → PlaudFile → Type 0
IsPaced s now later n r = IsFast s now later n r ⊎ (IsSlow s now later n r ⊎ IsStopped s later n r)

-- After its n-th failure in a row a recording waits: within the fast budget, until the doubled
-- delay is over; past the budget, until the slow interval is over, where one is configured; and only
-- past the budget and without an interval for good, whatever the time is.
pub schedule-IsPaced :
    (now later : ℕ) (s : RetrySettings) (row : PlaudFile)
    → let n = row.pipeline_retry_count + 1 in
      let r = schedule_pipeline_retry now s row in IsPaced s now later n r
unfolding schedule_pipeline_retry retry_not_due retry_delay_seconds
schedule-IsPaced now later s row =
    elim (Bool-cases (leb s.retry_max_attempts (row.pipeline_retry_count + 1))) [
      | inr e ↦
          let none_left : leb s.retry_max_attempts 0 ≡ false = ground arith in
          inl (ground arith, rw (none_left, e, retry_delay_seconds) refl)
      | inl e ↦ elim (Bool-cases (ltb 0 s.retry_exhausted_interval_seconds)) [
        | inl f ↦ inr (inl (ground arith, ground arith, ground arith))
        | inr f ↦ inr (inr (ground arith, ground arith, ground arith))
      ]
    ]
