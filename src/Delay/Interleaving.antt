-- ===== src/Delay/Interleaving.antt =====
-- Any order of new delays, drops, timer interrupts and the parts of polls of timer.rs.
use rt_async.Base.{ℕ, ◌≡◌, Option, none, some, List, true, false}
use rt_async.Base.Outcome.{Outcome, done}
use rt_async.External.{VecSeq}
use rt_async.TimerQueue.{Entry, TimerQueue, dequeue_expired}
use rt_async.Delay.{
  TimerDelay, Timers, Poll, answers, scheduled, create, begin_poll, end_poll, drop_delay,
  handle_timer_isr,
}
use rt_async.Delay.Compare.{Covers, begin_poll_lem, drop_delay-Covers}
use rt_async.Delay.Compare.{begin_poll_lem, drop_delay-Covers}

module _ (vec : VecSeq Entry) where
  -- The timers, with the deadline that a poll has yet to write: it stands between `schedule`, which found
  -- it the earliest, and `set_deadline`.
  pub record Running : Type 0 where
    pub timers : Timers
    pub writing : Option ℕ

  -- What tasks and the interrupt do, at any time of the counter, when it does not panic. A poll is up to
  -- three steps, and anything may come between them, but for one thing: no poll finds its delay the
  -- earliest while another has yet to write (`starts`).
  pub data Step (r : Running) : Running → Type 0 where
    creates :
        (f : ℕ) (delay : TimerDelay)
        → r.timers.delays f ≡ none
        → Step r (record r { timers = create r.timers f delay })
    answers_poll :
        (f cx now : ℕ) (delay : TimerDelay) (answer : Poll) (t : Timers)
        → r.timers.delays f ≡ some delay
        → begin_poll vec r.timers f cx now ≡ done (t, answers answer)
        → Step r (record r { timers = t })
    starts_later :
        (f cx now : ℕ) (delay : TimerDelay) (t : Timers)
        → r.timers.delays f ≡ some delay
        → begin_poll vec r.timers f cx now ≡ done (t, scheduled false)
        → Step r (record r { timers = t })
    starts :
        (f cx now : ℕ) (delay : TimerDelay) (t : Timers)
        → r.timers.delays f ≡ some delay
        → r.writing ≡ none
        → begin_poll vec r.timers f cx now ≡ done (t, scheduled true)
        → Step r (record { timers = t; writing = some delay.deadline })
    ends_later :
        (f : ℕ) (delay : TimerDelay) (t : Timers)
        → r.timers.delays f ≡ some delay
        → end_poll vec r.timers f false ≡ done t
        → Step r (record r { timers = t })
    ends :
        (f : ℕ) (delay : TimerDelay) (t : Timers)
        → r.timers.delays f ≡ some delay
        → r.writing ≡ some delay.deadline
        → end_poll vec r.timers f true ≡ done t
        → Step r (record { timers = t; writing = none })
    drops :
        (f : ℕ) (delay : TimerDelay) (t : Timers)
        → r.timers.delays f ≡ some delay
        → drop_delay vec r.timers f ≡ done t
        → Step r (record r { timers = t })
    fires :
        (now : ℕ) (woken : List ℕ) (t : Timers)
        → handle_timer_isr vec r.timers now ≡ done (t, woken)
        → Step r (record r { timers = t })

  pub data Reach (r : Running) : Running → Type 0 where
    here : Reach r r
    next : {u v : Running} → Reach r u → Step u v → Reach r v

  -- What covers the queue: the deadline that is yet to be written, or else the compare register.
  abbrev pub covering : ℕ → Option ℕ → ℕ
  covering compare none = compare
  covering compare (some d) = d

  abbrev pub IsArmed : Running → Type 0
  IsArmed r = Covers (covering r.timers.compare r.writing) r.timers.queue.entries
