-- ===== src/Delay.antt =====
-- modules/futures/src/timer.rs: the delay future over the timer queue, and the timer interrupt. A
-- delay is named by the address of its waker, which is the payload of its entry; `delays f` is `none`
-- if there is none or it is dropped, and reading through a pointer to it is a panic here. The counter
-- of the timer device is an argument, and `compare` is its compare register.
pub mod Compare
pub mod Bounds
pub mod Handler
pub mod Interleaving
pub mod Stale
pub mod Race
mod Tests
use rt_async.Base.{
  ℕ, ◌+◌, ◌-◌, ◌*◌, ◌/◌, ◌%◌, ◌^◌, Bool, true, false, Option, none, some, List, [], ◌∷◌, ◌==◌,
  if◌then◌else◌, leb, min, update,
}
use rt_async.Base.Outcome.{Outcome, done, panic, ◌>>=◌, unwrap}
use rt_async.External.{VecSeq}
use rt_async.TimerQueue
use rt_async.TimerQueue.{Entry, TimerQueue, schedule, cancel, dequeue_expired}

-- `TimerDelay`
pub record TimerDelay : Type 0 where
  pub deadline : ℕ
  pub registered : Bool
  pub waker : Option ℕ

-- `TIMER_QUEUE`, the delays and the device
pub record Timers : Type 0 where
  pub queue : TimerQueue
  pub delays : ℕ → Option TimerDelay
  pub compare : ℕ

pub data Poll : Type 0 where
  ready pending : Poll

-- How far `begin_poll` came: to an answer, or past `schedule` with its answer.
pub data Progress : Type 0 where
  answers : Poll → Progress
  scheduled : Bool → Progress

-- `u64::MAX`
abbrev pub far : ℕ
far = 2 ^ 64 - 1

-- The address of `wake_trampoline`
abbrev pub wake_trampoline : ℕ
wake_trampoline = 1

-- The queue has 16 entries, and `start` of platform/src/lib.rs sets the furthest deadline.
unfoldable pub new : Timers
new = record { queue = TimerQueue.new 16; delays = λ f. none; compare = far }

-- `after`: the product is 128 bits wide, the cast to 64 bits drops what is above, and the sum
-- saturates.
unfoldable pub after : ℕ → ℕ → ℕ → TimerDelay
after duration hw_freq now =
    let ticks = (duration * hw_freq / 1000000000) % 2 ^ 64 in
    record { deadline = min (now + ticks) far; registered = false; waker = none }

-- A new delay at the free address `f`
unfoldable pub create : Timers → ℕ → TimerDelay → Timers
create t f delay = record t { delays = update t.delays f (some delay) }

module _ (vec : VecSeq Entry) where
  -- The branch of `poll` before the deadline, for a delay that is not registered, up to the end of the
  -- critical section of `schedule`
  unfoldable pub enlist : Timers → ℕ → ℕ → TimerDelay → Outcome (Timers × Bool)
  enlist t f cx delay = do
    (queue, is_earliest) ←
        schedule vec t.queue
          (record { deadline = delay.deadline; callback = wake_trampoline; payload = f })
    done (
      record t {
        queue = queue;
        delays = update t.delays f (some (record delay { waker = some cx }));
      },
      is_earliest,
    )

  -- `poll` as far as it goes before an interrupt can see a difference: to its answer, or to the end of
  -- `schedule`
  unfoldable pub begin_poll : Timers → ℕ → ℕ → ℕ → Outcome (Timers × Progress)
  begin_poll t f cx now = do
    delay ← unwrap (t.delays f)
    (if leb delay.deadline now
        then done (
          record t { delays = update t.delays f (some (record delay { registered = false })) },
          answers ready,
        )
        else (if delay.registered
            then done (t, answers pending)
            else (do (t', is_earliest) ← enlist t f cx delay; done (t', scheduled is_earliest))))

  -- The rest of `poll` after `schedule`: the deadline is written if it is the earliest, and the delay is
  -- registered, which no other code reads.
  unfoldable pub end_poll : Timers → ℕ → Bool → Outcome Timers
  end_poll t f is_earliest = do
    delay ← unwrap (t.delays f)
    done (record t {
      delays = update t.delays f (some (record delay { registered = true }));
      compare = (if is_earliest then delay.deadline else t.compare);
    })

  -- A whole `poll`, with nothing in between
  unfoldable pub poll : Timers → ℕ → ℕ → ℕ → Outcome (Timers × Poll)
  poll t f cx now = do
    (t', progress) ← begin_poll t f cx now
    elim progress [
      | answers answer ↦ done (t', answer)
      | scheduled is_earliest ↦ do t'' ← end_poll t' f is_earliest; done (t'', pending)
    ]

  -- `Drop` of the delay at `f`
  unfoldable pub drop_delay : Timers → ℕ → Outcome Timers
  drop_delay t f = do
    delay ← unwrap (t.delays f)
    (if delay.registered
        then (do
          (queue, found) ← cancel vec t.queue f
          done (record t { queue = queue; delays = update t.delays f none }))
        else done (record t { delays = update t.delays f none }))

  -- The calls of `wake_trampoline` for the entries that were fired, and the wakers that are called
  unfoldable pub fire : (ℕ → Option TimerDelay) → List Entry → Outcome (List ℕ)
  fire delays [] = done []
  fire delays (e ∷ es) = do
    delay ← unwrap (delays e.payload)
    woken ← fire delays es
    done (elim delay.waker [ none ↦ woken | some w ↦ w ∷ woken ])

  -- The furthest deadline stays in the register if nothing is left in the queue.
  unfoldable pub handle_timer_isr : Timers → ℕ → Outcome (Timers × List ℕ)
  handle_timer_isr t now = do
    (queue, fired, next) ← dequeue_expired vec t.queue now
    woken ← fire t.delays fired
    done (record t { queue = queue; compare = (elim next [ none ↦ far | some d ↦ d ]) }, woken)
