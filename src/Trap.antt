-- ===== src/Trap.antt =====
-- modules/platform/archs/riscv64-rt/src/trap/entry.rs and trap/frame.rs: the assembly that saves the
-- registers of the interrupted code on its stack, calls the handler and puts them back. Register `xN` is
-- number N; memory is a function from addresses to words of 64 bits. The handler is an argument. The
-- model ends before the last instruction, `mret`, so that what it does to `mstatus`, and the jump, are
-- not part of it.
pub mod Frame
pub mod Align
pub mod Halves
pub mod Entry
pub mod Dispatch
mod Tests
use rt_async.Base.{ℕ, ◌+◌, ◌-◌, ◌%◌, ◌^◌, List, [], ◌∷◌, ◌++◌, update, bit_and}
use rt_async.Base.Bits.{bit_not}

pub record Machine : Type 0 where
  pub x : ℕ → ℕ
  pub mepc : ℕ
  pub mstatus : ℕ
  pub mem : ℕ → ℕ

pub data Instruction : Type 0 where
  -- destination, source
  mv : ℕ → ℕ → Instruction
  -- destination, source, the amount that is taken off
  addi_minus : ℕ → ℕ → ℕ → Instruction
  -- destination, source, the mask
  andi : ℕ → ℕ → ℕ → Instruction
  -- register, offset, base
  sd ld : ℕ → ℕ → ℕ → Instruction
  csrr_mepc csrr_mstatus csrw_mepc csrw_mstatus : ℕ → Instruction

abbrev pub sp : ℕ
sp = 2

abbrev pub t0 : ℕ
t0 = 5

abbrev pub a0 : ℕ
a0 = 10

abbrev pub set_x : Machine → ℕ → ℕ → Machine
set_x m r v = record m { x = update m.x r v }

unfoldable pub exec : Instruction → Machine → Machine
exec (mv d s) m = set_x m d (m.x s)
exec (addi_minus d s k) m = set_x m d ((m.x s + 2 ^ 64 - k) % 2 ^ 64)
exec (andi d s mask) m = set_x m d (bit_and (m.x s) mask)
exec (sd r off b) m = record m { mem = update m.mem ((m.x b + off) % 2 ^ 64) (m.x r) }
exec (ld r off b) m = set_x m r (m.mem ((m.x b + off) % 2 ^ 64))
exec (csrr_mepc r) m = set_x m r m.mepc
exec (csrr_mstatus r) m = set_x m r m.mstatus
exec (csrw_mepc r) m = record m { mepc = m.x r }
exec (csrw_mstatus r) m = record m { mstatus = m.x r }

unfoldable pub execs : List Instruction → Machine → Machine
execs [] m = m
execs (i ∷ is) m = execs is (exec i m)

-- The fields of `TrapFrame` that are registers, in order: all but `x0` and the stack pointer.
abbrev pub saved : List ℕ
saved =
    1 ∷ 3 ∷ 4 ∷ 5 ∷ 6 ∷ 7 ∷ 8 ∷ 9 ∷ 10 ∷ 11 ∷ 12 ∷ 13 ∷ 14 ∷ 15 ∷ 16 ∷ 17 ∷ 18 ∷ 19 ∷ 20 ∷ 21 ∷ 22
    ∷ 23 ∷ 24 ∷ 25 ∷ 26 ∷ 27 ∷ 28 ∷ 29 ∷ 30 ∷ 31 ∷ []

-- `sd x1, 0(sp)` to `sd x31, 232(sp)`: one word for each register, from an offset on.
unfoldable pub stores : ℕ → List ℕ → List Instruction
stores off [] = []
stores off (r ∷ rs) = sd r off sp ∷ stores (off + 8) rs

-- `ld x1, 0(sp)` to `ld x31, 232(sp)`
unfoldable pub loads : ℕ → List ℕ → List Instruction
loads off [] = []
loads off (r ∷ rs) = ld r off sp ∷ loads (off + 8) rs

-- The mask of `andi sp, sp, -16`
abbrev pub align_mask : ℕ
align_mask = bit_not 64 15

abbrev pub push_frame : List Instruction
push_frame = mv t0 sp ∷ addi_minus sp sp 272 ∷ andi sp sp align_mask ∷ sd t0 256 sp ∷ []

abbrev pub save_csrs : List Instruction
save_csrs = csrr_mepc t0 ∷ sd t0 240 sp ∷ csrr_mstatus t0 ∷ sd t0 248 sp ∷ mv a0 sp ∷ []

abbrev pub restore_csrs : List Instruction
restore_csrs = ld t0 240 sp ∷ csrw_mepc t0 ∷ ld t0 248 sp ∷ csrw_mstatus t0 ∷ []

unfoldable pub before_call : Machine → Machine
before_call m = execs save_csrs (execs (stores 0 saved) (execs push_frame m))

-- The code after the call, up to the `mret`
unfoldable pub after_call : Machine → Machine
after_call m = execs (ld sp 256 sp ∷ []) (execs (loads 0 saved) (execs restore_csrs m))

unfoldable pub trap_entry : (Machine → Machine) → Machine → Machine
trap_entry trap_handler m = after_call (trap_handler (before_call m))
