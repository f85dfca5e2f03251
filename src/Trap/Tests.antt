-- ===== src/Trap/Tests.antt =====
-- Runs of the trap entry: a handler that uses all registers for itself.
use rt_async.Base.{none, some, Option, ℕ, ◌+◌, ◌<◌, ◌≤◌, ◌≡◌, ◌≢◌, arith, refl, if◌then◌else◌, ◌==◌}
use rt_async.Trap.{Machine, exec, execs, stores, loads, before_call, after_call, trap_entry}
use rt_async.Trap.Align.{frame_at}
use rt_async.Trap.Entry.{trap_entry-KeepsStack, KeepsStack, Returns, trap_entry_lem}
use rt_async.Trap.Dispatch.{
  of_exception, breakpoint, machine_soft, exception, exception_handler, of_interrupt, interrupt,
  Exception, Interrupt, dispatch_interrupt, dispatch_exception, trap_handler, Symbol,
}
use rt_async.Base.Outcome.{done, panic, Outcome}

-- The interrupted code, with its stack pointer at 4100
abbrev running : Machine
running = record {
  x = λ r. if r == 2 then 4100 else 1000 + r;
  mepc = 77;
  mstatus = 88;
  mem = λ a. a + 5;
}

-- A handler that leaves 0 in every register but the stack pointer, and writes below its stack pointer.
abbrev busy : Machine → Machine
busy m = record m { x = λ r. if r == 2 then m.x 2 else 0; mem = λ a. if a == 8 then 9 else m.mem a }

frame_run : (before_call running).x 10 ≡ 3824
unfolding before_call execs exec stores
frame_run = refl

saved_run : (before_call running).mem (3824 + 232) ≡ 1031
unfolding before_call execs exec stores
saved_run = refl

restored_run : (trap_entry busy running).x 31 ≡ 1031
unfolding trap_entry after_call before_call execs exec stores loads
restored_run = refl

-- The interrupted code had 1005 in `t0`.
lost_run : (trap_entry busy running).x 5 ≡ 4100
unfolding trap_entry after_call before_call execs exec stores loads
lost_run = refl

busy-Returns : Returns (before_call running) (busy (before_call running)) (frame_at 4100)
busy-Returns = record { stack = refl; words = λ k h. ground (arith, h) }

busy-KeepsStack : KeepsStack (before_call running) (busy (before_call running))
unfolding before_call execs exec stores
busy-KeepsStack = (refl, λ a h. ground (arith, h))

trap_entry-KeepsStack_example : KeepsStack running (trap_entry busy running)
trap_entry-KeepsStack_example =
    trap_entry-KeepsStack busy running (omega arith) (omega arith) busy-KeepsStack

trap_entry_lem_example :
    ((r : ℕ) → 0 < r → r < 32 → r ≢ 5 → (trap_entry busy running).x r ≡ running.x r)
    × ((trap_entry busy running).x 5 ≡ running.x 2)
    × ((trap_entry busy running).mepc ≡ running.mepc)
    × ((trap_entry busy running).mstatus ≡ running.mstatus)
    × ((trap_entry busy running).mem ≡ (busy (before_call running)).mem)
    × ((a : ℕ) → running.x 2 ≤ a → (before_call running).mem a ≡ running.mem a)
trap_entry_lem_example = trap_entry_lem busy running (omega arith) (omega arith) busy-Returns

-- A machine with no exception but the two breakpoint codes, whose software interrupt does `busy`.
abbrev interrupt_of : ℕ → Option Interrupt
interrupt_of code = if code == 3 then some machine_soft else none

abbrev exception_of : ℕ → Option Exception
exception_of code = if code == 3 then some breakpoint else none

abbrev call : Symbol → Machine → Outcome Machine
call (of_interrupt i) m = done (busy m)
call (of_exception e) m = exception_handler exception_of 3 m

soft_run : trap_handler interrupt_of exception_of call (interrupt 3) running ≡ done (busy running)
unfolding trap_handler dispatch_interrupt
soft_run = refl

unknown_run : trap_handler interrupt_of exception_of call (interrupt 4) running ≡ panic
unfolding trap_handler dispatch_interrupt
unknown_run = refl

breakpoint_run : trap_handler interrupt_of exception_of call (exception 3) running ≡ panic
unfolding trap_handler dispatch_exception exception_handler
breakpoint_run = refl
