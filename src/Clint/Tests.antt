-- ===== src/Clint/Tests.antt =====
-- Runs of timer_clint.rs, on a compare register with two halves.
use rt_async.Base.{◌/◌, ◌%◌, ◌^◌, ◌<◌, ◌≡◌, ◌↔◌, [], ◌∷◌, none, some, arith, refl}
use rt_async.Base.Outcome.{done}
use rt_async.Device.{first_reg}
use rt_async.Clint.{
  mtime_regs, mtimecmp_regs, set_hi, set_lo, set_deadline, now, probe, timebase_freq,
}
use rt_async.Clint.Deadline.{set_deadline_lem}
use rt_async.Clint.Model.{clocks, blank, virt, count_at, compare_at, virt-Compares}

probe_run : probe blank (some (0x0200_0000 ∷ [])) 1 none ≡ done virt
unfolding probe first_reg timebase_freq
probe_run = refl

now_run : (now clocks virt).0 ≡ 0x1_0000_0000
unfolding now mtime_regs
now_run = refl

-- The new deadline is 0x1_8000_0000, and the register is at 0x1_0000_0005 in between.
between_run : (set_hi clocks virt 0x1_8000_0000).hardware.compare ≡ 0x1_0000_0005
unfolding set_hi mtimecmp_regs
between_run = refl

deadline_run : (set_deadline clocks virt 0x1_8000_0000).hardware.compare ≡ 0x1_8000_0000
unfolding set_deadline set_hi set_lo mtimecmp_regs
deadline_run = refl

set_deadline_lem_example :
    (compare_at (set_deadline clocks virt 0x1_8000_0000).hardware ≡ 0x1_8000_0000)
    × (((compare_at (set_hi clocks virt 0x1_8000_0000).hardware < compare_at virt.hardware)
          × (compare_at (set_hi clocks virt 0x1_8000_0000).hardware < 0x1_8000_0000))
        ↔ ((0x1_8000_0000 / 2 ^ 32 < compare_at virt.hardware / 2 ^ 32)
            × (compare_at virt.hardware % 2 ^ 32 < 0x1_8000_0000 % 2 ^ 32)))
set_deadline_lem_example =
    set_deadline_lem clocks compare_at count_at virt virt-Compares 0x1_8000_0000 (omega arith)
