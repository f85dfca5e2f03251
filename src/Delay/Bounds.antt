-- ===== src/Delay/Bounds.antt =====
-- The deadline that `after` of modules/futures/src/timer.rs computes.
use rt_async.Base.{refl, ℕ, ◌+◌, ◌*◌, ◌/◌, ◌^◌, ◌<◌, ◌≤◌, ◌≡◌, arith, min}
use rt_async.Delay.{after, far}
use native.Mathlib.Nat.{mod-eq_of_lt}

-- Nothing is cut off by the cast to 64 bits, on a clock of at most 1 GHz and a duration of 64 bits.
ticks-lt :
    (duration hw_freq : ℕ)
    → duration < 2 ^ 64
    → hw_freq ≤ 1000000000
    → duration * hw_freq / 1000000000 < 2 ^ 64
ticks-lt duration hw_freq hd hf =
    let below : duration * hw_freq ≤ duration * 1000000000 = grind arith in omega arith

-- `after` of a duration below 2 ^ 64 nanoseconds, at a counter of 64 bits and a clock of at most 1
-- GHz: the deadline is the present plus the ticks of the duration, or the largest word if that is
-- past it; so it is a word, and it is not before the present.
pub after_lem :
    (duration hw_freq now : ℕ)
    → duration < 2 ^ 64
    → hw_freq ≤ 1000000000
    → now < 2 ^ 64
    → ((after duration hw_freq now).deadline ≡ min (now + duration * hw_freq / 1000000000) far)
      × ((after duration hw_freq now).deadline < 2 ^ 64)
      × (now ≤ (after duration hw_freq now).deadline)
unfolding after
after_lem duration hw_freq now hd hf hn =
    let small = ticks-lt duration hw_freq hd hf in
    rw (mod-eq_of_lt small) (refl, omega arith, omega arith)
