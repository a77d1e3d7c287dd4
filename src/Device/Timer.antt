-- ===== src/Device/Timer.antt =====
-- device.c: time stamps and timeouts. Times are in microseconds.
pub mod Backoff
use powerman.Base.{
  ℕ, zero, suc, ◌+◌, ◌-◌, ◌*◌, ◌≤◌, ◌<◌, ◌≡◌, refl, Bool, true, false, ◌||◌, not, List, [], ◌∷◌,
  Option, none, some, arith, if◌then◌else◌, ltb, leb, ◌==◌,
}
use powerman.Client.{World}
use powerman.Device.{Device, Env}

-- gettimeofday: the reading, and the world after it.
unfoldable pub gettimeofday : Env → World → ℕ × World
gettimeofday env w = (env.clock w.reads, record w { reads = w.reads + 1 })

-- The result of _timeout, the time left, and the world after its reading of the clock.
unfoldable pub timeout_passed : Env → World → ℕ → ℕ → Bool × ℕ × World
unfolding gettimeofday
timeout_passed env w time_stamp timeout =
    let (now, w') = gettimeofday env w in
    let limit = time_stamp + timeout in
    if leb limit now then (true, 0, w') else (false, limit - now, w')

-- _update_timeout, where 0 is a timer that is clear.
unfoldable pub update_timeout : ℕ → ℕ → ℕ
update_timeout timeout tv = if ltb tv timeout || timeout == 0 then tv else timeout

-- rtab[rix > max_rtab_index ? max_rtab_index : rix] for a count of retries that is not 0, in seconds.
unfoldable pub retry_seconds : ℕ → ℕ
retry_seconds zero = 0
retry_seconds (suc zero) = 1
retry_seconds (suc (suc zero)) = 2
retry_seconds (suc (suc (suc zero))) = 4
retry_seconds (suc (suc (suc (suc zero)))) = 8
retry_seconds (suc (suc (suc (suc (suc zero))))) = 15
retry_seconds (suc (suc (suc (suc (suc (suc zero)))))) = 30
retry_seconds _ = 60

-- The result of _time_to_reconnect, the timeout, and the world after it. The callers' `timeout` is
-- never NULL.
unfoldable pub time_to_reconnect : Env → World → Device → ℕ → Bool × ℕ × World
unfolding timeout_passed retry_seconds update_timeout
time_to_reconnect env w dev timeout =
    if dev.retry_count == 0
    then (true, timeout, w)
    else let (passed, timeleft, w') =
        timeout_passed env w dev.last_retry (retry_seconds dev.retry_count * 1_000_000) in
      (passed, if passed then timeout else update_timeout timeout timeleft, w')
