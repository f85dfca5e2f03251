-- ===== src/Finisher.antt =====
-- modules/platform/src/drivers/reset_sifive_test.rs: the driver that switches the machine off. What
-- follows the write is an endless loop.
use rt_async.Base.{ℕ, ◌==◌, if◌then◌else◌, List, Option}
use rt_async.Base.Outcome.{Outcome, done, panic, ◌>>=◌}
use rt_async.Device.{Bus, first_reg}
use rt_async.Driver.{Slot, set_slot}

pub record Finisher (S : Type 0) : Type 0 where
  pub base : ℕ
  pub reset : Slot ℕ
  pub hardware : S

abbrev pub finisher_pass : ℕ
finisher_pass = 0x5555

-- The name of the driver `INSTANCE`
abbrev pub sifive_test : ℕ
sifive_test = 4

module _ {S : Type 0} where
  -- The address of the register; the assertion fails before `probe`.
  unfoldable pub regs : Finisher S → Outcome ℕ
  regs f = if f.base == 0 then panic else done f.base

  unfoldable pub probe : Finisher S → Option (List ℕ) → Outcome (Finisher S)
  probe f reg = do
    base ← first_reg reg
    done (record f { base = base; reset = set_slot sifive_test })

  -- The state in which `shutdown` spins.
  unfoldable pub shutdown : Bus S → Finisher S → Outcome (Finisher S)
  shutdown bus f = do
    r ← regs f
    done (record f { hardware = bus.write 32 f.hardware r finisher_pass })
