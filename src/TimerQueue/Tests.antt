-- ===== src/TimerQueue/Tests.antt =====
-- Runs of timer/src/lib.rs on a queue of three entries.
use rt_async.Base.{ℕ, ◌≡◌, ◌⊎◌, ◌+◌, List, [], ◌∷◌, some, Option, refl, true, false}
use rt_async.Base.Outcome.{done, panic}
use rt_async.External.Model.{seq}
use rt_async.TimerQueue.{
  Entry, TimerQueue, new, min_deadline, try_schedule, schedule, cancel, dequeue_expired,
}
use rt_async.TimerQueue.Minimum.{Minimum}
use rt_async.TimerQueue.Drain.{Expired, Pending, Splits, total, dequeue_expired_lem}
use rt_async.TimerQueue.Cancel.{NotFor, cancel_lem}

abbrev entry : ℕ → ℕ → Entry
entry deadline payload = record { deadline = deadline; callback = 9; payload = payload }

abbrev three : TimerQueue
three = record { limit = 4; entries = entry 5 1 ∷ (entry 20 2 ∷ (entry 8 3 ∷ [])) }

drain_run :
    dequeue_expired seq three 10
    ≡ done (record three { entries = entry 20 2 ∷ [] }, entry 5 1 ∷ (entry 8 3 ∷ []), some 20)
unfolding dequeue_expired rt_async.TimerQueue.drain_from min_deadline
drain_run = refl

cancel_run :
    cancel seq three 1 ≡ done (record three { entries = entry 8 3 ∷ (entry 20 2 ∷ []) }, true)
unfolding cancel rt_async.TimerQueue.cancel_from
cancel_run = refl

schedule_run :
    schedule seq (new 1) (entry 5 1) ≡ done (record { limit = 1; entries = entry 5 1 ∷ [] }, true)
unfolding schedule new try_schedule min_deadline
schedule_run = refl

full_run : schedule seq (record { limit = 1; entries = entry 5 1 ∷ [] }) (entry 4 2) ≡ panic
unfolding schedule try_schedule
full_run = refl

dequeue_expired_lem_example :
    (fired left : List Entry) × (next : Option ℕ) × (dequeue_expired seq three 10
      ≡ done (record three { entries = left }, fired, next))
    × Expired 10 fired
    × Pending 10 left
    × Splits fired left three.entries
    × Minimum left next
dequeue_expired_lem_example = dequeue_expired_lem seq three 10

cancel_lem_example :
    (NotFor 2 three.entries × (cancel seq three 2 ≡ done (three, false)))
    ⊎ ((e : Entry) × (rest : List Entry) × (e.payload ≡ 2)
        × (cancel seq three 2 ≡ done (record three { entries = rest }, true))
        × ((f : Entry → ℕ) → total f rest + f e ≡ total f three.entries))
cancel_lem_example = cancel_lem seq three 2
