-- ===== src/Lib.antt =====
-- RT-Async, a priority-preemptive asynchronous runtime: the scheduler and its tasks, the async mutex,
-- timer queue and futures that tasks use, and the platform with its drivers and its trap entry.
--
-- The parts. A task (modules/executor/src/task) is a static future with a byte of flags, links for a
-- run queue and a pointer to the executor that owns it. Each priority has one executor
-- (modules/executor/src/executor.rs), which polls the tasks of its run queue until that is empty. The
-- spawner (modules/executor/src/spawner.rs) keeps a two-level bitmap of the priorities that have
-- ready tasks (priority_bitmap.rs) and a stack of the priorities that are running; a wake links its
-- task, sets the bit and raises the software interrupt (`pend` of modules/platform/src/lib.rs), whose
-- handler asks `try_preempt` for a priority to run, runs it, and calls `complete_executor`. Tasks
-- share data with the mutex of modules/futures/src/mutex.rs and wait with the deadline queue of
-- modules/timer/src/lib.rs, through the delays of modules/futures/src/timer.rs.
-- The platform (modules/platform/src) finds the drivers at boot; an interrupt enters through the
-- assembly of modules/platform/archs/riscv64-rt/src/trap, and its handler wakes tasks.
--
-- The files.
--   Base, Base/Tests, Base/Lists   Boolean tests, case splits and lists over the native numbers
--   Base/Bits      digits of machine words: `test_bit`, `trailing_zeros`
--   Base/Outcome   the result of code that may panic: `done` or `panic`
--   External       cordyceps::List and heapless::Vec, as interfaces; External/Model implements them
--   Device         memory-mapped registers, as an interface: the state after a read or a write
--   Bitmap         priority_bitmap.rs; Bitmap/Digits and Bitmap/Highest relate it to a set of
--                  numbers, Bitmap/Sets any sequence of operations to the same on a set
--   Priority       priority.rs
--   Task           task/header.rs and the fields of task/storage.rs; Task/State is task/state.rs
--   Kernel         executor.rs, spawner.rs, task/storage.rs, task/run_queue.rs, task/waker.rs,
--                  task/join_handle.rs: all executors, tasks and the scheduler in one record
--                  `Spawner`, with Kernel/Dispatch for `spawn`, `try_preempt` and
--                  `complete_executor`. Kernel/Invariant states what holds between atomics and
--                  critical sections; Mark is about the two halves of `enqueue`; Link, Wake, Take,
--                  Preempt, Spawns and Frame are about one call each, Steps about any order of calls
--                  and of their parts, Run about the whole run loop, and Respawn about a task that is
--                  spawned again too early
--   Scheduler      the handler that executor-macro/src/lib.rs generates; Ends is about its loop
--   Macro          what the macros of executor-macro/src/lib.rs accept and which names they make, over
--                  the syntax trees of Macro/Syntax; Parameter is about the type of the spawner,
--                  Levels about the log level, Checks about `main` and `task`
--   Mutex          futures/src/mutex.rs; Waiters and Polls are about its queue, Exclusion about
--                  interleavings, Stranded about a woken waiter that loses the race
--   TimerQueue     timer/src/lib.rs; Minimum, Drain and Cancel are about its operations
--   Delay          futures/src/timer.rs; Compare and Handler are about the compare register and the
--                  timer interrupt, Bounds about the deadline of a duration, Stale about an entry
--                  that outlives its delay, Interleaving about any order of the parts of polls, drops
--                  and interrupts, Race about a poll that preempts another
--   Serial         the receive ring of platform/src/drivers/serial_ns16550a.rs, and
--                  futures/src/serial.rs; Ring is about the ring, Wakeup about the waker slot
--   Uart           the device side of the same driver; Transmit is about `write`, Receive about the
--                  interrupt handler, which fills the ring of Serial
--   Irq            platform/src/irq.rs; Latch and Dispatch are about its two parts
--   Plic           platform/src/drivers/plic_sifive.rs; Registers is about its addresses, Controller
--                  is what the registers stand for, Control is about the four setters, Service about
--                  an external interrupt from the claim to the completion, with the dispatch of Irq
--   Clint          platform/src/drivers/timer_clint.rs; Deadline is about the compare register, and
--                  Model is a device that has its laws
--   Msip           platform/src/drivers/ipi_clint_msip.rs, with `pend` and `clear_pend` of
--                  platform/src/lib.rs; Pend relates these to the ones of Kernel
--   Finisher       platform/src/drivers/reset_sifive_test.rs
--   Driver         platform/src/driver.rs and bus.rs; Registry and Room are about a registry,
--                  Boot about the boot loop
--   Boot           the drivers of platform/src/drivers as the loop of Driver probes them, on one state;
--                  Effects is about one probe, Loop about the turns of the loop, Slots about what
--                  the slots hold after a boot
--   Platform       platform/src/lib.rs, dtb.rs and logger.rs, the enables of
--                  platform/archs/riscv64-rt/src/lib.rs, the slots of driver.rs and the boards of
--                  platform/chips; Start is about `start`
--   Trap           platform/archs/riscv64-rt/src/trap/entry.rs, instruction by instruction; Frame,
--                  Align and Halves are about the frame, the stack pointer and the code before and
--                  after the call, Entry about the whole trap. Trap/Dispatch is trap/handler.rs and
--                  handlers/interrupt.rs and exception.rs
-- A module Tests runs the definitions and applies the theorems to the states of a run.
--
-- The model. A word is a number below 2 ^ 64, with the complement and the shifts written out. A
-- pointer to a task or to a lock future is a number, its name; the fields behind it are a function of
-- the name, so aliasing is kept. A panic is a value. What may come between two steps is part of a
-- component's step relation. In Kernel/Steps anything may come between the parts of `spawn` and
-- `wake_task`, which are the atomic and the critical section of `enqueue`, `pend` and the critical section
-- of `spawn` (`linking` of Spawner tells for which tasks some `enqueue` stands between its two); the other
-- calls are one step each. In the functions for the run loop and the scheduler loop
-- interrupts come only while a future is polled, and the calls that they make are whole. In
-- Delay/Interleaving a poll is cut at the end of `schedule`, and two polls that have both found their
-- delay the earliest and have both yet to write its deadline are left out: Delay/Race shows what these
-- do. In Serial and Irq the steps are the critical sections, and a poll of the mutex is one critical
-- section in the source too.
-- The run loop, the loop of the scheduler and the two loops of the timer queue are recursions on
-- fuel; the loops of the timer queue stop at the length of the queue, which is the fuel that they
-- get, and the fuel of the others is an argument, with a theorem on how much is enough. The same
-- holds for the loops of the serial driver: the polls until the device has room, and the bytes that it
-- hands out.
--
-- Devices. The crate tock_registers reads and writes registers; `Bus` of Device stands for it and for
-- the hardware behind it. A theorem that depends on the hardware has a record of laws as hypothesis,
-- one law per register and kind of access, as the manuals of the devices have them, and the tests
-- give a device that has them. The crates fdt-parser and syn are arguments: what the code reads from
-- a device tree is an optional list of addresses, and what it reads from a function is a tree.
--
-- Not modelled: the future of a task itself, which is an argument of `poll` and `run`, a function of
-- its task and of the state, in which `cell` of Task is what it keeps between its polls; the drop bomb
-- of `SpawnToken`; memory ordering; the pointer arithmetic of `TaskRef`; the raw storage of
-- modules/executor/src/util.rs; the start assembly, the linker script and the panic handler of
-- modules/platform/archs; the `mret` at the end of a trap; the tokens that the macros generate, but for
-- their names and the interrupt handler; and the programs of apps.
pub mod Base
pub mod Bitmap
pub mod Boot
pub mod Clint
pub mod Delay
pub mod Device
pub mod Driver
pub mod External
pub mod Finisher
pub mod Irq
pub mod Kernel
pub mod Macro
pub mod Msip
pub mod Mutex
pub mod Platform
pub mod Plic
pub mod Priority
pub mod Scheduler
pub mod Serial
pub mod Task
pub mod TimerQueue
pub mod Trap
pub mod Uart
