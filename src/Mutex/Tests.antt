-- ===== src/Mutex/Tests.antt =====
-- A run of mutex.rs: future 1 gets the lock, future 2 waits and is woken by the release, future 1
-- gets the lock again, and future 2 polls and is out of the queue.
use rt_async.Base.{ℕ, ◌≡◌, ◌≢◌, ◌≤◌, ◌⊎◌, ◌↔◌, none, some, refl, arith, true, false, length}
use rt_async.Base.Outcome.{Outcome, done, panic}
use rt_async.External.Model.{seq}
use rt_async.Mutex.{Mutex, LockFuture, ready, pending, new, lock, poll, drop_guard}
use rt_async.Mutex.Waiters.{IsValid}
use rt_async.Mutex.Polls.{Gets, Parks, poll-IsValid}
use rt_async.Mutex.Exclusion
use rt_async.Mutex.Exclusion.{Shared, Exclusive, mutual_exclusion}
use rt_async.Mutex.Stranded
use rt_async.Mutex.Stranded.{IsStranded, drop_guard_strands, IsStranded-forever}

-- The mutex of a result, or `m` after a panic.
abbrev after : {A : Type 0} → Mutex ℕ → Outcome (Mutex ℕ × A) → Mutex ℕ
after m (done (m', a)) = m'
after m panic = m

abbrev fresh : Mutex ℕ
fresh = new 1 0

abbrev waiting : Mutex ℕ
waiting = lock (lock fresh 1) 2

abbrev held : Mutex ℕ
held = after waiting (poll seq waiting 1 10)

held_run : poll seq waiting 1 10 ≡ done (held, ready)
unfolding new lock poll
held_run = refl

abbrev queued : Mutex ℕ
queued = after held (poll seq held 2 20)

queued_run : poll seq held 2 20 ≡ done (queued, pending)
unfolding new lock poll
queued_run = refl

abbrev released : Mutex ℕ
released = after queued (drop_guard seq queued)

released_run : drop_guard seq queued ≡ done (released, some (2, 20))
unfolding new lock poll drop_guard
released_run = refl

abbrev again : Mutex ℕ
again = after released (poll seq released 1 10)

again_run : poll seq released 1 10 ≡ done (again, ready)
unfolding new lock poll drop_guard
again_run = refl

abbrev parked : Mutex ℕ
parked = after again (poll seq again 2 21)

parked_run : poll seq again 2 21 ≡ done (parked, pending)
unfolding new lock poll drop_guard
parked_run = refl

free_1 : fresh.futures 1 ≡ none
unfolding new
free_1 = refl

free_2 : (lock fresh 1).futures 2 ≡ none
unfolding new lock
free_2 = refl

abbrev begin : Shared ℕ
begin = record { mutex = fresh; guards = 0 }

abbrev one_out : Shared ℕ
one_out = record { mutex = queued; guards = 1 }

reach_queued : Exclusion.Reach seq begin one_out
reach_queued =
    Exclusion.next
      (Exclusion.next
        (Exclusion.next (Exclusion.next Exclusion.here (Exclusion.creates 1 free_1))
          (Exclusion.creates 2 free_2))
        (Exclusion.acquires 1 10 held held_run))
      (Exclusion.waits 2 20 queued queued_run)

reach_released : Exclusion.Reach seq begin (record { mutex = released; guards = 0 })
reach_released =
    Exclusion.next reach_queued (Exclusion.releases 0 released (some (2, 20)) refl released_run)

mutual_exclusion_example :
    (one_out.guards ≤ 1)
    × ((one_out.guards ≡ 1) ↔ (one_out.mutex.locked ≡ true))
    × IsValid one_out.mutex
mutual_exclusion_example = mutual_exclusion seq 1 0 reach_queued

queued-IsValid : IsValid queued
queued-IsValid = (mutual_exclusion seq 1 0 reach_queued).2

released-IsValid : IsValid released
released-IsValid = (mutual_exclusion seq 1 0 reach_released).2

abbrev future_2 : LockFuture
future_2 = record { queued = true; waker = some 20 }

future_2_run : queued.futures 2 ≡ some future_2
unfolding new lock poll
future_2_run = refl

poll-IsValid_example :
    Gets seq queued 2 future_2 future_2_run 22
    ⊎ (Parks seq queued 2 future_2 future_2_run 22
        ⊎ ((queued.locked ≡ true)
            × (true ≡ false)
            × (queued.limit ≤ length queued.waiters)
            × (poll seq queued 2 22 ≡ panic)))
poll-IsValid_example = poll-IsValid seq queued 2 future_2 future_2_run 22 queued-IsValid

released-IsStranded : IsStranded released 2
released-IsStranded = drop_guard_strands seq queued released 2 20 queued-IsValid released_run

reach_parked : Stranded.Reach seq 2 released parked
reach_parked =
    Stranded.next
      (Stranded.next Stranded.here (Stranded.acquires 1 10 again (λ e. omega arith) again_run))
      (Stranded.waits 2 21 parked parked_run)

IsStranded-forever_example :
    IsStranded parked 2 × ((u : Mutex ℕ) (w : ℕ) → drop_guard seq parked ≢ done (u, some (2, w)))
IsStranded-forever_example =
    IsStranded-forever seq 2 released released-IsValid released-IsStranded reach_parked
