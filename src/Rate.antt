-- ===== src/Rate.antt =====
-- The rate limiter of tflib/tf_util.c. The system's clock is the argument `now`, in seconds; counts
-- are 32-bit words.
pub mod Bursts
use tflib.Common.Int.{ℤ, pos, negsuc}
use tflib.Common.{ℕ, ◌+◌, ◌-◌, ◌%◌, ◌^◌, leb, ltb, ◌==◌, if◌then◌else◌, Bool, true, false, not}

-- `rate` is a quotient, here its two terms.
pub record RateLimiter : Type 0 where
  pub total : ℕ
  pub count : ℕ
  pub seconds : ℕ
  pub wait : ℕ
  pub rate : ℕ × ℕ
  pub time : ℕ
  pub bad : ℕ

-- The fields that are not set keep what the memory held.
unfoldable pub rate_new : RateLimiter → ℕ → ℕ → ℕ → RateLimiter
rate_new memory total seconds wait = record memory {
  total = total;
  seconds = seconds;
  wait = wait;
  rate = (0, 1);
}

unfoldable pub rate_reset : RateLimiter → RateLimiter
rate_reset rt = record rt { time = 0; count = 0; bad = 0 }

-- A window that is over is closed before the events are counted.
unfoldable pub expire : ℕ → RateLimiter → RateLimiter
expire now rt =
    if leb (rt.time + rt.seconds) now
    then rate_reset (record rt { rate = (rt.count, now - rt.time) })
    else rt

unfoldable pub count_events : ℕ → ℕ → RateLimiter → RateLimiter
count_events now n rt =
    let count = (rt.count + n) % 2 ^ 32 in
    record rt {
      count = count;
      time = if rt.time == 0 then now else rt.time;
      bad = if leb rt.total count then now else rt.bad;
    }

unfoldable pub rate_add : ℕ → ℕ → RateLimiter → RateLimiter
rate_add now n rt = count_events now n (expire now rt)

-- A 32-bit word as an `int`.
unfoldable pub int_of_word : ℕ → ℤ
int_of_word w = if ltb w (2 ^ 31) then pos w else negsuc (2 ^ 32 - 1 - w)

unfoldable pub rate_left : RateLimiter → ℤ
rate_left rt =
    if not (rt.bad == 0) then pos 0 else int_of_word ((rt.total + 2 ^ 32 - rt.count) % 2 ^ 32)

unfoldable pub rate_check : ℕ → RateLimiter → RateLimiter × Bool
rate_check now rt =
    if rt.time == 0
    then (rt, true)
    else if ltb rt.count rt.total
    then (rt, true)
    else if not (rt.bad == 0)
    then (if leb (rt.bad + rt.wait) now then (rate_reset rt, true) else (rt, false))
    else (rt, true)
