-- ===== src/RateLimiter.antt =====
-- The sliding-window rate limiter of order_execution.py, which spaces the broker calls. Times are
-- whole ticks of the clock; a call reads the clock when it begins and again after a sleep.
pub mod Window
use mintzy_plugin_kelly_opt.Base.{
  ℕ, zero, suc, ◌+◌, ◌-◌, Bool, true, false, ◌&&◌, List, [], ◌∷◌, ◌++◌, keep, length, Call,
  returned, raised, if◌then◌else◌, leb, ltb,
}

pub record RateLimiter : Type 0 where
  pub max_calls : ℕ
  pub time_window : ℕ
  pub calls : List ℕ

abbrev pub new : ℕ → ℕ → RateLimiter
new max_calls time_window = record { max_calls = max_calls; time_window = time_window; calls = [] }

-- `now - call_time < time_window`, also where the clock has gone back.
abbrev pub in_window : ℕ → ℕ → ℕ → Bool
in_window time_window now call_time = ltb now (call_time + time_window)

-- The time to sleep until the oldest call leaves the window: `time_window - (now - oldest_call)`.
abbrev pub sleep_time : ℕ → ℕ → ℕ → ℕ
sleep_time time_window now oldest = (oldest + time_window) - now

-- The part behind the pruning at `now`: `calls` are those in the window. It returns the time that the
-- call was granted and the limiter; without a single call to wait for, `self.calls[0]` raises.
unfoldable pub admit : RateLimiter → ℕ → ℕ → List ℕ → Call (ℕ × RateLimiter)
admit l now later [] =
    if leb l.max_calls 0 then raised else returned (now, record l { calls = now ∷ [] })
admit l now later (oldest ∷ others) =
    let calls = oldest ∷ others in
    if leb l.max_calls (length calls) && ltb 0 (sleep_time l.time_window now oldest)
    then returned
        (later, record l { calls = keep (in_window l.time_window later) calls ++ later ∷ [] })
    else returned (now, record l { calls = calls ++ now ∷ [] })

-- One call, which began at `now`, and read the clock again at `later` if it slept.
unfoldable pub acquire : RateLimiter → ℕ → ℕ → Call (ℕ × RateLimiter)
unfolding admit
acquire l now later = admit l now later (keep (in_window l.time_window now) l.calls)
