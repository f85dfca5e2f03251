-- ===== src/Clint/Model.antt =====
-- A counter and a compare register that behave as the manual of the CLINT says, for the tests.
use rt_async.Base.{ℕ, ◌+◌, ◌*◌, ◌/◌, ◌%◌, ◌^◌, ◌==◌, if◌then◌else◌, arith, refl}
use rt_async.Device.{Bus}
use rt_async.Driver.{empty_slot, set_slot}
use rt_async.Clint.{Clint, mtime_regs, mtimecmp_regs}
use rt_async.Clint.Deadline.{Compares}

-- The counter and the compare register of hart 1, the compare register in 64 bits
pub record Clocks : Type 0 where
  pub count : ℕ
  pub compare : ℕ

abbrev at_lo : ℕ
at_lo = 0x0200_4008

abbrev pub clocks : Bus Clocks
clocks = record {
  read = λ w s a. (if a == 0x0200_bff8 then s.count % 2 ^ 64 else s.compare % 2 ^ 32, s);
  write = λ w s a v.
      if a == at_lo
      then record s { compare = s.compare % 2 ^ 64 / 2 ^ 32 * 2 ^ 32 + v }
      else (if a == at_lo + 4 then record s { compare = v * 2 ^ 32 + s.compare % 2 ^ 32 } else s);
}

abbrev pub blank : Clint Clocks
blank = record {
  base = 0;
  off_mtimecmp = 0;
  freq = 0;
  timer = empty_slot;
  hardware = record { count = 0x1_0000_0000; compare = 0x2_0000_0005 };
}

abbrev pub virt : Clint Clocks
virt = record blank {
  base = 0x0200_0000;
  off_mtimecmp = 0x4008;
  freq = 10000000;
  timer = set_slot 2;
}

abbrev pub count_at : Clocks → ℕ
count_at s = s.count % 2 ^ 64

abbrev pub compare_at : Clocks → ℕ
compare_at s = s.compare % 2 ^ 64

pub virt-Compares : Compares clocks virt compare_at count_at
unfolding mtimecmp_regs mtime_regs
virt-Compares = record {
  write_hi = λ s v h. omega arith;
  write_lo = λ s v h. omega arith;
  read_count = λ s. refl;
  count-lt = λ s. omega arith;
  compare-lt = λ s. omega arith;
}
