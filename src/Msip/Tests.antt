-- ===== src/Msip/Tests.antt =====
-- Runs of ipi_clint_msip.rs and of `pend` and `clear_pend` on it.
use rt_async.Base.{ℕ, ◌%◌, ◌≡◌, ◌==◌, Bool, true, false, [], ◌∷◌, some, update, refl, replicate}
use rt_async.Base.Outcome.{done, panic}
use rt_async.Device.{Bus, first_reg}
use rt_async.Driver.{empty_slot, set_slot, get_slot}
use rt_async.Kernel.{Spawner}
use rt_async.Kernel as Kernel
use rt_async.Task.{new_task}
use rt_async.Msip.{Msip, regs, probe, send, pend, clear_pend}
use rt_async.Msip.Pend.{Raises, IsProbed, Agrees, pend-Agrees}

abbrev words : Bus (ℕ → ℕ)
words = record { read = λ w s a. (s a, s); write = λ w s a v. update s a v }

abbrev at : ℕ
at = 0x0200_0004

abbrev raised : (ℕ → ℕ) → Bool
raised s = s at % 2 == 1

words-Raises : Raises words at raised
words-Raises = record { write_one = λ s. refl; write_zero = λ s. refl }

abbrev blank : Msip (ℕ → ℕ)
blank = record {
  base = 0;
  off_msip = 0;
  is_ready = 0;
  ipi = empty_slot;
  pend_marker = false;
  hardware = λ a. 0;
}

abbrev virt : Msip (ℕ → ℕ)
virt = record blank { base = 0x0200_0000; off_msip = 4; is_ready = 1; ipi = set_slot 3 }

probe_run : probe blank (some (0x0200_0000 ∷ [])) 1 ≡ done virt
unfolding probe first_reg
probe_run = refl

-- Before `probe` the driver does nothing, and the platform has no device to ask.
send_early : send words blank ≡ blank
unfolding send regs
send_early = refl

pend_early : pend words blank ≡ panic
unfolding pend get_slot empty_slot
pend_early = refl

virt-IsProbed : IsProbed virt at
unfolding regs get_slot set_slot
virt-IsProbed = record { slot = refl; register = refl }

abbrev idle : Spawner ℕ
idle = record {
  size = 4;
  initialized = true;
  tasks = λ t. new_task ℕ;
  run_queue = λ p. [];
  bitmap = record { group_map = 0; group_table = replicate 64 0 };
  prio_stack = [];
  pend_marker = false;
  msip = false;
  linking = λ t. 0;
}

idle-Agrees : Agrees words raised idle virt
idle-Agrees = (refl, refl)

pend-Agrees_example :
    ((m' : Msip (ℕ → ℕ)) × (pend words virt ≡ done m')
      × Agrees words raised (Kernel.pend idle) m'
      × IsProbed m' at)
    × ((m' : Msip (ℕ → ℕ)) × (clear_pend words virt ≡ done (m', (Kernel.clear_pend idle).1))
        × Agrees words raised (Kernel.clear_pend idle).0 m'
        × IsProbed m' at)
pend-Agrees_example = pend-Agrees words raised virt at words-Raises virt-IsProbed idle idle-Agrees
