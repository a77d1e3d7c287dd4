-- ===== src/Device/Timer/Backoff.antt =====
-- How long a device waits before it connects again, and when the main loop wakes up for it.
use mathlib.Core.Path.{subst}
use powerman.Base.{
  ◌==◌, ◌-◌, Bool-cases, ℕ, zero, suc, ◌+◌, ◌*◌, ◌≤◌, ◌<◌, ◌≡◌, ◌≢◌, ◌⊎◌, inl, inr, true, false,
  arith, leb,
}
use powerman.Client.{World}
use powerman.Device.{Device, Env}
use powerman.Device.Timer.{
  gettimeofday, timeout_passed, update_timeout, retry_seconds, time_to_reconnect,
}

retry_seconds_step :
    (n : ℕ)
    → (retry_seconds n ≤ 60)
      × (0 < n → 0 < retry_seconds n)
      × (retry_seconds n ≤ retry_seconds (suc n))
unfolding retry_seconds
retry_seconds_step zero = (omega arith, (λ h. omega arith), omega arith)
retry_seconds_step (suc zero) = (omega arith, (λ h. omega arith), omega arith)
retry_seconds_step (suc (suc zero)) = (omega arith, (λ h. omega arith), omega arith)
retry_seconds_step (suc (suc (suc zero))) = (omega arith, (λ h. omega arith), omega arith)
retry_seconds_step (suc (suc (suc (suc zero)))) = (omega arith, (λ h. omega arith), omega arith)
retry_seconds_step (suc (suc (suc (suc (suc zero))))) =
    (omega arith, (λ h. omega arith), omega arith)
retry_seconds_step (suc (suc (suc (suc (suc (suc zero)))))) =
    (omega arith, (λ h. omega arith), omega arith)
retry_seconds_step (suc (suc (suc (suc (suc (suc (suc n))))))) =
    (omega arith, (λ h. omega arith), omega arith)

retry_seconds_add : (n k : ℕ) → retry_seconds n ≤ retry_seconds (n + k)
retry_seconds_add n zero =
    let same : n ≡ n + 0 = omega arith in
    subst (λ k. retry_seconds n ≤ retry_seconds k) same (omega arith)
retry_seconds_add n (suc k) =
    let same : suc (n + k) ≡ n + suc k = omega arith in
    subst (λ m. retry_seconds n ≤ retry_seconds m) same
      (omega (arith, retry_seconds_add n k, (retry_seconds_step (n + k)).2))

-- The waiting time of a device that has tried is at least a second and at most a minute, and it
-- does not shrink with the count of retries.
pub retry_seconds_bounds :
    (n m : ℕ)
    → 0 < n
    → n ≤ m
    → (0 < retry_seconds n) × (retry_seconds n ≤ retry_seconds m) × (retry_seconds m ≤ 60)
retry_seconds_bounds n m h k = (
  (retry_seconds_step n).1 h,
  subst (λ j. retry_seconds n ≤ retry_seconds j) (omega (arith, k)) (retry_seconds_add n (m - n)),
  (retry_seconds_step m).0,
)

-- _time_to_reconnect on a device that has tried before: it says to connect exactly if the waiting
-- time since the last try has passed at the reading of the clock that it makes, and then leaves the
-- timeout alone; otherwise it leaves a timeout that is set, and that ends no later than the wait,
-- nor than the timeout given (0 is a timer that is clear).
pub time_to_reconnect_waits :
    (env : Env) (w : World) (dev : Device) (timeout : ℕ)
    → dev.retry_count ≢ 0
    → let due = dev.last_retry + retry_seconds dev.retry_count * 1_000_000 in
      let now = env.clock w.reads in
      let r = time_to_reconnect env w dev timeout in
      ((r.0 ≡ true) × (due ≤ now) × (r.1 ≡ timeout))
      ⊎ ((r.0 ≡ false) × (0 < r.1) × (now + r.1 ≤ due) × ((timeout ≡ 0) ⊎ (r.1 ≤ timeout)))
unfolding time_to_reconnect timeout_passed gettimeofday update_timeout
time_to_reconnect_waits env w dev timeout h =
    elim (Bool-cases
      (leb (dev.last_retry + retry_seconds dev.retry_count * 1_000_000) (env.clock w.reads))) [
        | inl e ↦ inl (ground arith, ground arith, ground arith)
        | inr e ↦ inr (
          ground arith,
          ground arith,
          ground arith,
          elim (Bool-cases (timeout == 0)) [
            | inl z ↦ inl (ground arith)
            | inr z ↦ inr (ground arith)
          ],
        )
      ]
