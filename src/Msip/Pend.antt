-- ===== src/Msip/Pend.antt =====
-- The scheduler's `pend` and `clear_pend` are implemented by the driver of the software interrupt.
use rt_async.Base.{
  sym, ◌^◌, ℕ, ◌+◌, ◌*◌, ◌≡◌, ◌<◌, Bool, true, false, List, ◌∷◌, some, arith, ap, refl,
}
use rt_async.Base.Outcome.{done}
use rt_async.Device.{first_reg, Bus, usize}
use rt_async.Driver.{get_slot, set_slot}
use rt_async.Kernel.{Spawner}
use rt_async.Kernel as Kernel
use rt_async.Msip.{Msip, regs, probe, send, clear, pend, clear_pend}

-- What the manual says of the register of a hart: the interrupt is raised while its lowest bit is 1.
pub record Raises {S : Type 0} (bus : Bus S) (at : ℕ) (raised : S → Bool) : Type 0 where
  pub write_one : (s : S) → raised (bus.write 32 s at 1) ≡ true
  pub write_zero : (s : S) → raised (bus.write 32 s at 0) ≡ false

-- The driver was probed with this base address, on this hart.
pub record IsProbed {S : Type 0} (m : Msip S) (at : ℕ) : Type 0 where
  pub slot : get_slot m.ipi ≡ some 3
  pub register : regs m ≡ some at

module _ {S : Type 0} (bus : Bus S) (raised : S → Bool) where
  -- The flags of the scheduler's state are those of the driver and the hardware.
  abbrev pub Agrees : {Out : Type 0} → Spawner Out → Msip S → Type 0
  Agrees s m = (s.pend_marker ≡ m.pend_marker) × (s.msip ≡ raised m.hardware)

  module _ (m : Msip S) (at : ℕ) (raises : Raises bus at raised) (probed : IsProbed m at) where
    -- The register depends on the statics of the driver alone.
    reached : (b : Bool) (s : S) → regs (record m { pend_marker = b; hardware = s }) ≡ some at
    unfolding regs
    reached b s = probed.register

    -- On a probed driver whose register raises the interrupt as documented, `pend` and `clear_pend`
    -- of the platform never panic, and they do to the marker and the hardware what the scheduler's
    -- model of them says: the states agree afterwards, `clear_pend` gives the same answer, and the
    -- driver stays probed.
    pub pend-Agrees :
        {Out : Type 0} (s : Spawner Out)
        → Agrees s m
        → ((m' : Msip S) × (pend bus m ≡ done m') × Agrees (Kernel.pend s) m' × IsProbed m' at)
          × ((m' : Msip S) × (clear_pend bus m ≡ done (m', (Kernel.clear_pend s).1))
              × Agrees (Kernel.clear_pend s).0 m'
              × IsProbed m' at)
    unfolding pend clear_pend send clear Kernel.pend Kernel.clear_pend
    pend-Agrees s (marker, pending) = (
      (
        record m { pend_marker = true; hardware = bus.write 32 m.hardware at 1 },
        ground (arith, probed.slot, reached true m.hardware),
        (refl, sym (raises.write_one m.hardware)),
        record { slot = probed.slot; register = reached true (bus.write 32 m.hardware at 1) },
      ),
      (
        record m { pend_marker = false; hardware = bus.write 32 m.hardware at 0 },
        ground (arith, probed.slot, marker, reached false m.hardware),
        (refl, sym (raises.write_zero m.hardware)),
        record { slot = probed.slot; register = reached false (bus.write 32 m.hardware at 0) },
      ),
    )

-- `probe` on a hart leaves the driver probed with the register of that hart, four bytes for each one
-- before it.
pub probe_lem :
    {S : Type 0} (m : Msip S) (base hart : ℕ) (more : List ℕ)
    → base + 4 * hart < 2 ^ 64
    → (m' : Msip S) × (probe m (some (base ∷ more)) hart ≡ done m') × IsProbed m' (base + 4 * hart)
unfolding probe first_reg regs get_slot set_slot
probe_lem m base hart more h = (
  record m { base = base; off_msip = usize (hart * 4); is_ready = 1; ipi = set_slot 3 },
  refl,
  record { slot = refl; register = ap some (omega arith) },
)
