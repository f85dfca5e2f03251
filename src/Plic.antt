-- ===== src/Plic.antt =====
-- modules/platform/src/drivers/plic_sifive.rs: the driver of the interrupt controller. The statics
-- `BASE` and `CONTEXT`, the slot `INTC` of driver.rs and the hardware are one record.
pub mod Registers
pub mod Controller
pub mod Control
pub mod Service
mod Tests
use rt_async.Base.{ℕ, ◌+◌, ◌*◌, ◌/◌, ◌%◌, ◌^◌, List, [], ◌∷◌, Option, bit_and, bit_or}
use rt_async.Base.Bits.{bit_not, shl_one}
use rt_async.Base.Outcome.{Outcome, done, panic, ◌>>=◌}
use rt_async.Device.{Bus, usize, first_reg}
use rt_async.Driver.{Slot, set_slot}

pub record Plic (S : Type 0) : Type 0 where
  pub base : ℕ
  pub context : ℕ
  pub intc : Slot ℕ
  pub hardware : S

abbrev pub priority_base : ℕ
priority_base = 0x0000

abbrev pub enable_base : ℕ
enable_base = 0x2000

abbrev pub threshold_offset : ℕ
threshold_offset = 0x200000

-- The name of the driver `PLIC`
abbrev pub plic : ℕ
plic = 1

module _ {S : Type 0} where
  -- The threshold register, with the claim register four bytes after it
  unfoldable pub ctx_regs : Plic S → ℕ
  ctx_regs p = usize (p.base + threshold_offset + p.context * 0x1000)

  unfoldable pub priority_regs : Plic S → ℕ → ℕ
  priority_regs p irq = usize (p.base + priority_base + irq * 4)

  unfoldable pub enable_regs : Plic S → ℕ → ℕ
  enable_regs p irq = usize (p.base + enable_base + p.context * 0x80 + (irq / 32) * 4)

  module _ (bus : Bus S) where
    unfoldable pub enable_irq : Plic S → ℕ → Plic S
    enable_irq p irq =
        let (word, hardware) = bus.read 32 p.hardware (enable_regs p irq) in
        record p {
          hardware =
              bus.write 32 hardware (enable_regs p irq) (bit_or word (shl_one 32 (irq % 32)));
        }

    unfoldable pub disable_irq : Plic S → ℕ → Plic S
    disable_irq p irq =
        let (word, hardware) = bus.read 32 p.hardware (enable_regs p irq) in
        record p {
          hardware =
              bus.write 32 hardware (enable_regs p irq)
                (bit_and word (bit_not 32 (shl_one 32 (irq % 32))));
        }

    unfoldable pub set_priority : Plic S → ℕ → ℕ → Plic S
    set_priority p irq prio = record p {
      hardware = bus.write 32 p.hardware (priority_regs p irq) prio;
    }

    unfoldable pub set_threshold : Plic S → ℕ → Plic S
    set_threshold p thr = record p { hardware = bus.write 32 p.hardware (ctx_regs p) thr }

    unfoldable pub claim : Plic S → ℕ × Plic S
    claim p =
        let (irq, hardware) = bus.read 32 p.hardware (ctx_regs p + 4) in
        (irq, record p { hardware = hardware })

    unfoldable pub complete : Plic S → ℕ → Plic S
    complete p irq = record p { hardware = bus.write 32 p.hardware (ctx_regs p + 4) irq }

    -- `mhartid` is the number of the hart that runs.
    unfoldable pub probe : ℕ → Plic S → Option (List ℕ) → Outcome (Plic S)
    probe mhartid p reg = do
      base ← first_reg reg
      (let p' = set_threshold (record p { base = base; context = usize (mhartid * 2) }) 0 in
          done (record p' { intc = set_slot plic }))
