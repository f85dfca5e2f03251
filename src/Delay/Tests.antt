-- ===== src/Delay/Tests.antt =====
-- Runs of timer.rs: two delays, the first of which fires; and a delay that is dropped while it is
-- queued.
use rt_async.Base.{
  ◌*◌, ◌/◌, ◌+◌, ◌^◌, min, ◌≡◌, ◌<◌, ◌≤◌, ◌++◌, suc, length, All, true, false, none, some, List, [],
  ◌∷◌, refl, arith,
}
use rt_async.Base.Outcome.{Outcome, done, panic}
use rt_async.External.Model.{seq}
use rt_async.TimerQueue
use rt_async.TimerQueue.{Entry, schedule, try_schedule, min_deadline, cancel, cancel_from}
use rt_async.TimerQueue.Drain.{total, Expired, Pending, Splits}
use rt_async.Delay.{
  far, TimerDelay, Timers, ready, pending, new, after, create, enlist, poll, begin_poll, end_poll,
  drop_delay, handle_timer_isr,
}
use rt_async.Delay.Compare.{Armed, entry_for}
use rt_async.Delay.Handler.{Alive, wakers, handle_timer_isr_lem}
use rt_async.Delay.Interleaving.{Running}
use rt_async.Delay.Race.{preempted_poll, preempted_poll_lem}
use rt_async.Delay.Stale.{due, stale_entry_lem}
use rt_async.Delay.Bounds.{after_lem}

-- 500 and 200 microseconds at 10 MHz, from the count 100
abbrev delay_1 : TimerDelay
delay_1 = record { deadline = 5100; registered = false; waker = none }

abbrev delay_2 : TimerDelay
delay_2 = record { deadline = 2100; registered = false; waker = none }

after_run : (after 500000 10000000 100 ≡ delay_1) × (after 200000 10000000 100 ≡ delay_2)
unfolding after
after_run = (refl, refl)

abbrev state : {A : Type 0} → Timers → Outcome (Timers × A) → Timers
state t (done (t', a)) = t'
state t panic = t

abbrev one : Timers
one = create new 1 delay_1

abbrev two : Timers
two = create one 2 delay_2

abbrev three : Timers
three = state two (poll seq two 1 10 200)

poll_1_run : poll seq two 1 10 200 ≡ done (three, pending)
unfolding poll begin_poll end_poll enlist create new TimerQueue.new schedule try_schedule
    min_deadline
poll_1_run = refl

abbrev four : Timers
four = state three (poll seq three 2 20 300)

poll_2_run : poll seq three 2 20 300 ≡ done (four, pending)
unfolding poll begin_poll end_poll enlist create new TimerQueue.new schedule try_schedule
    min_deadline
poll_2_run = refl

compare_run : four.compare ≡ 2100
unfolding poll begin_poll end_poll enlist create new TimerQueue.new schedule try_schedule
    min_deadline
compare_run = refl

abbrev five : Timers
five = state four (handle_timer_isr seq four 2100)

here_1 : two.delays 1 ≡ some delay_1
unfolding new create
here_1 = refl

-- The polls of both delays in their two parts, and the interrupt at the first deadline.
abbrev idle : Timers → Running seq
idle t = record { timers = t; writing = none }

abbrev three_begun : Timers
three_begun = state two (begin_poll seq two 1 10 200)

abbrev four_begun : Timers
four_begun = state three (begin_poll seq three 2 20 300)

two-here_2 : two.delays 2 ≡ some delay_2
unfolding new create
two-here_2 = refl

room_two : suc (length two.queue.entries) < two.queue.limit
unfolding new create TimerQueue.new
room_two = omega arith

above_two : All (λ (e : Entry). 5100 < e.deadline) two.queue.entries
unfolding new create TimerQueue.new
above_two = tt

-- The poll of the delay of 2100 preempts that of the delay of 5100.
preempted_poll_lem_example :
    (t' : Timers) × (preempted_poll seq two 1 10 2 20 200 ≡ done t')
    × (t'.compare ≡ 5100)
    × (t'.queue.entries
        ≡ (two.queue.entries ++ (entry_for seq 1 delay_1 ∷ [])) ++ (entry_for seq 2 delay_2 ∷ []))
preempted_poll_lem_example =
    preempted_poll_lem seq two 1 10 2 20 200 delay_1 delay_2 (omega arith) here_1 two-here_2 refl
      refl (omega arith) (omega arith) above_two room_two

four-Alive : Alive four.delays four.queue.entries
unfolding poll begin_poll end_poll enlist create new TimerQueue.new schedule try_schedule
    min_deadline
four-Alive = (λ e. cc, (λ e. cc, tt))

handle_timer_isr_lem_example :
    (fired left : List Entry) × (t' : Timers) × (handle_timer_isr seq four 2100
      ≡ done (t', wakers four.delays fired))
    × (t'.queue.entries ≡ left)
    × Expired 2100 fired
    × Pending 2100 left
    × Splits fired left four.queue.entries
    × Armed t'
handle_timer_isr_lem_example = handle_timer_isr_lem seq four 2100 four-Alive

abbrev registered_2 : TimerDelay
registered_2 = record { deadline = 2100; registered = true; waker = some 20 }

here_registered_2 : four.delays 2 ≡ some registered_2
unfolding poll begin_poll end_poll enlist create new TimerQueue.new schedule try_schedule
    min_deadline
here_registered_2 = refl

queued_2 : 0 < total (due 2 2200) four.queue.entries
unfolding poll begin_poll end_poll enlist create new TimerQueue.new schedule try_schedule
    min_deadline
queued_2 = omega arith

over_2 : registered_2.deadline ≤ 2200
over_2 = omega arith

stale_entry_lem_example :
    (t₁ t₂ : Timers) × (poll seq four 2 20 2200 ≡ done (t₁, ready))
    × (drop_delay seq t₁ 2 ≡ done t₂)
    × (t₂.queue ≡ four.queue)
    × (handle_timer_isr seq t₂ 2200 ≡ panic)
stale_entry_lem_example =
    stale_entry_lem seq four 2 20 2200 registered_2 here_registered_2 over_2 queued_2

-- Three milliseconds at 10 MHz
after_run_ms : (after 3000000 10000000 500).deadline ≡ 30500
unfolding after
after_run_ms = refl

after_lem_example :
    ((after 3000000 10000000 500).deadline ≡ min (500 + 3000000 * 10000000 / 1000000000) far)
    × ((after 3000000 10000000 500).deadline < 2 ^ 64)
    × (500 ≤ (after 3000000 10000000 500).deadline)
after_lem_example = after_lem 3000000 10000000 500 (omega arith) (omega arith) (omega arith)
