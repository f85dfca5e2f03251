-- ===== src/Clint/Deadline.antt =====
-- The two halves in which timer_clint.rs writes a deadline.
use rt_async.Base.{◌↔◌, ℕ, ◌+◌, ◌*◌, ◌/◌, ◌%◌, ◌^◌, ◌<◌, ◌≡◌, arith, ◌∙◌}
use rt_async.Device.{Bus}
use rt_async.Clint.{Clint, mtime_regs, mtimecmp_regs, set_hi, set_lo, set_deadline}

-- What the manual says of the compare register of a hart: it takes its two halves one by one, and the
-- counter is read without an effect.
pub record Compares {S : Type 0} (bus : Bus S) (c : Clint S) (compare_at count_at : S → ℕ)
    : Type 0 where
  pub write_hi :
      (s : S) (v : ℕ)
      → v < 2 ^ 32
      → compare_at (bus.write 32 s (mtimecmp_regs c + 4) v) ≡ v * 2 ^ 32 + compare_at s % 2 ^ 32
  pub write_lo :
      (s : S) (v : ℕ)
      → v < 2 ^ 32
      → compare_at (bus.write 32 s (mtimecmp_regs c) v) ≡ compare_at s / 2 ^ 32 * 2 ^ 32 + v
  pub read_count : (s : S) → bus.read 64 s (mtime_regs c) ≡ (count_at s, s)
  pub count-lt : (s : S) → count_at s < 2 ^ 64
  pub compare-lt : (s : S) → compare_at s < 2 ^ 64

module _ {S : Type 0} (bus : Bus S) (compare_at count_at : S → ℕ) (c : Clint S)
    (compares : Compares bus c compare_at count_at) where
  high_lem :
      (tick : ℕ)
      → tick < 2 ^ 64
      → compare_at (set_hi bus c tick).hardware
        ≡ tick / 2 ^ 32 * 2 ^ 32 + compare_at c.hardware % 2 ^ 32
  unfolding set_hi
  high_lem tick h =
      compares.write_hi c.hardware ((tick / 2 ^ 32) % 2 ^ 32) (omega arith) ∙ omega arith

  -- A deadline of 64 bits, written in two halves to a compare register that keeps them, is what the
  -- register then holds. Between the two writes the register is below both the old and the new
  -- deadline, so that an interrupt may come too early, exactly if the high half falls and the low
  -- half rises.
  pub set_deadline_lem :
      (tick : ℕ)
      → tick < 2 ^ 64
      → (compare_at (set_deadline bus c tick).hardware ≡ tick)
        × (((compare_at (set_hi bus c tick).hardware < compare_at c.hardware)
              × (compare_at (set_hi bus c tick).hardware < tick))
            ↔ ((tick / 2 ^ 32 < compare_at c.hardware / 2 ^ 32)
                × (compare_at c.hardware % 2 ^ 32 < tick % 2 ^ 32)))
  unfolding set_deadline set_lo set_hi mtimecmp_regs
  set_deadline_lem tick h = (
    compares.write_lo (set_hi bus c tick).hardware (tick % 2 ^ 32) (omega arith)
        ∙ omega (arith, high_lem tick h),
    (
      λ early. omega (arith, high_lem tick h, early.0, early.1),
      λ halves. omega (arith, high_lem tick h, halves.0, halves.1),
    ),
  )
