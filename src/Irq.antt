-- ===== src/Irq.antt =====
-- modules/platform/src/irq.rs: the table of interrupt handlers with its dispatch, and the latch that
-- carries an interrupt to a waiting task. A handler is a number, its address, and 0 is none. What
-- `dispatch_external` does to the outside is a list of events. The interrupt controller of
-- platform/src/driver.rs is its claimed number, or `none` if none is registered.
pub mod Latch
pub mod Dispatch
mod Tests
use rt_async.Base.{
  ℕ, zero, suc, Bool, true, false, Option, none, some, List, [], ◌∷◌, ◌==◌, if◌then◌else◌, ltb,
  update,
}
use rt_async.Base.Outcome.{Outcome, done, panic, ◌>>=◌, unwrap}

abbrev pub max_irq : ℕ
max_irq = 96

-- `IRQ_TABLE`
unfoldable pub empty_table : ℕ → ℕ
empty_table irq = 0

-- The assertion and the index into the table panic on the same numbers.
unfoldable pub register_irq : (ℕ → ℕ) → ℕ → ℕ → Outcome (ℕ → ℕ)
register_irq table irq handler = if ltb irq max_irq then done (update table irq handler) else panic

pub data Event : Type 0 where
  -- a handler is called with the number of an interrupt
  calls : ℕ → ℕ → Event
  completes : ℕ → Event

unfoldable pub dispatch_external : (ℕ → ℕ) → Option ℕ → Outcome (List Event)
dispatch_external table intctl = do
  irq ← unwrap intctl
  (if irq == 0
      then done (completes 0 ∷ [])
      else (if ltb irq max_irq
          then (if table irq == 0
              then done (completes irq ∷ [])
              else done (calls (table irq) irq ∷ (completes irq ∷ [])))
          else panic))

-- `IrqLatch`
pub record IrqLatch : Type 0 where
  pub pending : ℕ
  pub has_waker : ℕ
  pub waker : Option ℕ

pub data Poll : Type 0 where
  is_ready is_pending : Poll

unfoldable pub new : IrqLatch
new = record { pending = 0; has_waker = 0; waker = none }

-- The latch afterwards, and the waker that is called.
unfoldable pub notify : IrqLatch → Outcome (IrqLatch × Option ℕ)
notify l = if l.has_waker == 0 then done (record l { pending = 1 }, none) else (do
  waker ← unwrap l.waker
  done (record { pending = 1; has_waker = 0; waker = none }, some waker))

-- The part of `poll` with interrupts off: the waker is written over the one that is there, and the
-- latch is checked again.
unfoldable pub register : IrqLatch → ℕ → IrqLatch × Poll
register l cx =
    if l.pending == 0
    then (record l { has_waker = 1; waker = some cx }, is_pending)
    else (record { pending = 0; has_waker = 0; waker = none }, is_ready)

-- The interrupts between the fast path and the part with interrupts off.
unfoldable pub notifies : IrqLatch → ℕ → Outcome IrqLatch
notifies l zero = done l
notifies l (suc n) = do (l', woken) ← notify l; notifies l' n

unfoldable pub poll : IrqLatch → ℕ → ℕ → Outcome (IrqLatch × Poll)
poll l cx arrivals =
    if l.pending == 0
    then (do l' ← notifies l arrivals; done (register l' cx))
    else done (record l { pending = 0 }, is_ready)
