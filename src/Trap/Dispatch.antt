-- ===== src/Trap/Dispatch.antt =====
-- trap/handler.rs, handlers/interrupt.rs and handlers/exception.rs of
-- modules/platform/archs/riscv64-rt: which handler a trap calls. The decoding of `mcause` and of the
-- codes is of the crate `riscv`: it is an argument. The handlers are symbols that the linker resolves.
use rt_async.Base.{ℕ, ◌^◌, ◌==◌, if◌then◌else◌, bit_and, Option}
use rt_async.Base.Bits.{bit_not}
use rt_async.Base.Outcome.{Outcome, panic, ◌>>=◌, unwrap}
use rt_async.Trap.{Machine}

-- `Trap` of the crate `riscv`
pub data Cause : Type 0 where
  interrupt exception : ℕ → Cause

-- `Interrupt` of the crate
pub data Interrupt : Type 0 where
  supervisor_soft machine_soft supervisor_timer machine_timer : Interrupt
  supervisor_external machine_external : Interrupt

-- `Exception` of the crate
pub data Exception : Type 0 where
  instruction_misaligned instruction_fault illegal_instruction breakpoint : Exception
  load_misaligned load_fault store_misaligned store_fault : Exception
  user_env_call supervisor_env_call machine_env_call : Exception
  instruction_page_fault load_page_fault store_page_fault : Exception

-- The symbols of the two `extern` blocks, which have the names of the interrupts and exceptions.
pub data Symbol : Type 0 where
  of_interrupt : Interrupt → Symbol
  of_exception : Exception → Symbol

-- `from_number` of the two enumerations of the crate
module _ (interrupt_of : ℕ → Option Interrupt) (exception_of : ℕ → Option Exception)
    (call : Symbol → Machine → Outcome Machine) where
  unfoldable pub dispatch_interrupt : Machine → ℕ → Outcome Machine
  dispatch_interrupt trap_frame code = do
    i ← unwrap (interrupt_of code)
    call (of_interrupt i) trap_frame

  unfoldable pub dispatch_exception : Machine → ℕ → Outcome Machine
  dispatch_exception trap_frame code = do
    e ← unwrap (exception_of code)
    call (of_exception e) trap_frame

  unfoldable pub trap_handler : Cause → Machine → Outcome Machine
  trap_handler (interrupt code) trap_frame = dispatch_interrupt trap_frame code
  trap_handler (exception code) trap_frame = dispatch_exception trap_frame code

-- `ExceptionHandler`, the default of the exceptions, panics whatever the cause is; `code` is `mcause`
-- without its highest bit.
unfoldable pub exception_handler : (ℕ → Option Exception) → ℕ → Machine → Outcome Machine
exception_handler exception_of mcause trap_frame =
    if bit_and mcause (2 ^ 63) == 0
    then (do e ← unwrap (exception_of (bit_and mcause (bit_not 64 (2 ^ 63)))); panic)
    else panic
