-- ===== src/Irq/Tests.antt =====
-- Runs of irq.rs: a task waits on a latch, the interrupt comes, and the task polls again.
use rt_async.Base.{ℕ, ◌≡◌, none, some, refl}
use rt_async.Base.Outcome.{done}
use rt_async.Irq.{IrqLatch, is_ready, is_pending, new, notify, notifies, register, poll}
use rt_async.Irq.Latch.{IsValid, Reach, here, next, interrupts, polls, Reach-IsValid}

abbrev one_hundred : ℕ
one_hundred = 100

abbrev one : ℕ
one = 1

abbrev waiting : IrqLatch
waiting = record { pending = 0; has_waker = 1; waker = some 4 }

poll_run : poll new 4 0 ≡ done (waiting, is_pending)
unfolding poll new notifies register
poll_run = refl

abbrev notified : IrqLatch
notified = record { pending = 1; has_waker = 0; waker = none }

notify_run : notify waiting ≡ done (notified, some 4)
unfolding notify
notify_run = refl

race_run : poll new 4 1 ≡ done (new, is_ready)
unfolding poll new notifies notify register
race_run = refl

reach_waiting : Reach new waiting
reach_waiting = next here (polls 4 0 is_pending poll_run)

Reach-IsValid_example : IsValid notified
Reach-IsValid_example = Reach-IsValid (next reach_waiting (interrupts (some 4) notify_run))

waiting-IsValid : IsValid waiting
waiting-IsValid = Reach-IsValid reach_waiting
