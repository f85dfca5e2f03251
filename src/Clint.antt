-- ===== src/Clint.antt =====
-- modules/platform/src/drivers/timer_clint.rs: the driver of the timer. Its statics, the slot `TIMER`
-- of driver.rs and the hardware are one record. The frequency that the device tree gives, and the
-- number of the hart that its header gives, are arguments of `probe`.
pub mod Deadline
pub mod Model
mod Tests
use rt_async.Base.{ℕ, ◌+◌, ◌*◌, ◌/◌, ◌%◌, ◌^◌, List, Option, none, some}
use rt_async.Base.Outcome.{Outcome, done, panic, ◌>>=◌}
use rt_async.Device.{Bus, usize, first_reg}
use rt_async.Driver.{Slot, set_slot}

pub record Clint (S : Type 0) : Type 0 where
  pub base : ℕ
  pub off_mtimecmp : ℕ
  pub freq : ℕ
  pub timer : Slot ℕ
  pub hardware : S

abbrev pub off_mtimecmp_base : ℕ
off_mtimecmp_base = 0x4000

abbrev pub mtimecmp_stride : ℕ
mtimecmp_stride = 8

abbrev pub off_mtime : ℕ
off_mtime = 0xbff8

-- The name of the driver `INSTANCE`
abbrev pub clint_timer : ℕ
clint_timer = 2

-- The frequency of the device tree, 10 MHz if it has none
unfoldable pub timebase_freq : Option ℕ → ℕ
timebase_freq none = 10000000
timebase_freq (some freq) = freq

module _ {S : Type 0} where
  unfoldable pub mtime_regs : Clint S → ℕ
  mtime_regs c = usize (c.base + off_mtime)

  unfoldable pub mtimecmp_regs : Clint S → ℕ
  mtimecmp_regs c = usize (c.base + c.off_mtimecmp)

  unfoldable pub freq_hz : Clint S → ℕ
  freq_hz c = c.freq % 2 ^ 32

  module _ (bus : Bus S) where
    unfoldable pub now : Clint S → ℕ × Clint S
    now c =
        let (count, hardware) = bus.read 64 c.hardware (mtime_regs c) in
        (count, record c { hardware = hardware })

    -- `cmp.hi.set((tick >> 32) as u32)`
    unfoldable pub set_hi : Clint S → ℕ → Clint S
    set_hi c tick = record c {
      hardware = bus.write 32 c.hardware (mtimecmp_regs c + 4) ((tick / 2 ^ 32) % 2 ^ 32);
    }

    -- `cmp.lo.set(tick as u32)`
    unfoldable pub set_lo : Clint S → ℕ → Clint S
    set_lo c tick = record c {
      hardware = bus.write 32 c.hardware (mtimecmp_regs c) (tick % 2 ^ 32);
    }

    unfoldable pub set_deadline : Clint S → ℕ → Clint S
    set_deadline c tick = set_lo (set_hi c tick) tick

  unfoldable pub probe : Clint S → Option (List ℕ) → ℕ → Option ℕ → Outcome (Clint S)
  probe c reg hart freq = do
    base ← first_reg reg
    done (record c {
      base = base;
      off_mtimecmp = usize (off_mtimecmp_base + hart * mtimecmp_stride);
      freq = timebase_freq freq;
      timer = set_slot clint_timer;
    })
