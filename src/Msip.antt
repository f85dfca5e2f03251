-- ===== src/Msip.antt =====
-- modules/platform/src/drivers/ipi_clint_msip.rs: the driver of the software interrupt, with `pend` and
-- `clear_pend` of modules/platform/src/lib.rs on top of it. The statics of both, the slot `IPI` of
-- driver.rs and the hardware are one record.
pub mod Pend
mod Tests
use rt_async.Base.{ℕ, ◌+◌, ◌*◌, ◌==◌, if◌then◌else◌, Bool, true, false, List, Option, none, some}
use rt_async.Base.Outcome.{Outcome, done, panic, ◌>>=◌, unwrap}
use rt_async.Device.{Bus, usize, first_reg}
use rt_async.Driver.{Slot, get_slot, set_slot}

pub record Msip (S : Type 0) : Type 0 where
  pub base : ℕ
  pub off_msip : ℕ
  pub is_ready : ℕ
  pub ipi : Slot ℕ
  pub pend_marker : Bool
  pub hardware : S

abbrev pub msip_stride : ℕ
msip_stride = 4

-- The name of the driver `INSTANCE`
abbrev pub clint_msip : ℕ
clint_msip = 3

module _ {S : Type 0} where
  -- The address of the register, or none before `probe`
  unfoldable pub regs : Msip S → Option ℕ
  regs m = if m.is_ready == 0 then none else some (usize (m.base + m.off_msip))

  unfoldable pub probe : Msip S → Option (List ℕ) → ℕ → Outcome (Msip S)
  probe m reg hart = do
    base ← first_reg reg
    done (record m {
      base = base;
      off_msip = usize (hart * msip_stride);
      is_ready = 1;
      ipi = set_slot clint_msip;
    })

  module _ (bus : Bus S) where
    unfoldable pub send : Msip S → Msip S
    send m = elim (regs m) [
      | none ↦ m
      | some r ↦ record m { hardware = bus.write 32 m.hardware r 1 }
    ]

    unfoldable pub clear : Msip S → Msip S
    clear m = elim (regs m) [
      | none ↦ m
      | some r ↦ record m { hardware = bus.write 32 m.hardware r 0 }
    ]

    -- `driver::ipi()` panics on an empty slot. The only device that fills it is this driver.
    unfoldable pub pend : Msip S → Outcome (Msip S)
    pend m = do device ← unwrap (get_slot m.ipi); done (send (record m { pend_marker = true }))

    unfoldable pub clear_pend : Msip S → Outcome (Msip S × Bool)
    clear_pend m = do
      device ← unwrap (get_slot m.ipi)
      done (clear (record m { pend_marker = false }), m.pend_marker)
