-- ===== src/Scheduler/Tests.antt =====
-- The scheduler loop with a future that is always pending: each poll takes one task off its queue.
use rt_async.Base.{
  ℕ, zero, suc, ◌≡◌, ◌⊎◌, ◌<◌, ◌≤◌, ◌+◌, true, false, some, List, ◌∷◌, length, refl, arith, ap,
  update, sym, inl, inr, eq-cases,
}
use rt_async.Base.Bits.{trailing_zeros}
use rt_async.Base.Outcome.{Outcome, done}
use rt_async.External.Model.{run_list, stack}
use rt_async.Bitmap
use rt_async.Task.{new_task}
use rt_async.Task.State
use rt_async.Kernel.{Spawner, init, storage_spawn, enqueue, begin_enqueue, link, bm_set, pend}
use rt_async.Kernel.Dispatch.{spawn, pend_if_higher, should_pend}
use rt_async.Kernel.Run.{Work, amount, Lessens}
use rt_async.Kernel.Take.{after_take}
use rt_async.Kernel.Tests.{spawned_7}
use rt_async.Kernel.Tests.Examples.{inv_at, reach_spawned}
use rt_async.Kernel.Tests.RunExamples.{never, never-Behaves, poll_keeps}
use rt_async.Scheduler.{schedule, machine_soft}
use rt_async.Scheduler.Ends.{rank, Settled, schedule_ends, machine_soft_ends}

-- How many tasks stand in the first `n` queues.
abbrev lengths : (ℕ → List ℕ) → ℕ → ℕ
lengths queues zero = 0
lengths queues (suc n) = lengths queues n + length (queues n)

module _ (queues : ℕ → List ℕ) (e : ℕ) (rest : List ℕ) where
  lengths-above : (n : ℕ) → n ≤ e → lengths (update queues e rest) n ≡ lengths queues n
  lengths-above zero h = refl
  lengths-above (suc n) h = ground (arith, lengths-above n, h)

  lengths-update :
      (t n : ℕ)
      → e < n
      → queues e ≡ t ∷ rest
      → lengths (update queues e rest) n + 1 ≡ lengths queues n
  lengths-update t zero h q = absurd (omega arith)
  lengths-update t (suc n) h q = elim (eq-cases e n) [
    | inl same ↦ ground (
      arith,
      lengths-above n,
      same,
      ap (λ x. length (queues x)) (sym same),
      ap (λ xs. length xs) q,
    )
    | inr other ↦ ground (arith, lengths-update t n, other, h, q)
  ]

abbrev work : Work ℕ
work tasks queues = lengths queues 4

less_work : (e : ℕ) → e < 4 → Lessens run_list never never-Behaves work 4 e
less_work e inside s s' t rest same v q polled =
    let kept = poll_keeps (after_take s e t rest) s' t polled in
    let fewer : amount work s' ≡ lengths (update s.run_queue e rest) 4 =
      ap (amount work) (sym kept) in
    omega (arith, fewer, lengths-update s.run_queue e rest t 4 inside q)

four_priorities : spawned_7.size ≡ 4
unfolding storage_spawn spawn enqueue begin_enqueue link bm_set init State.spawn State.run_enqueue
    Bitmap.set pend_if_higher should_pend pend Bitmap.highest trailing_zeros new_task
four_priorities = refl

schedule_ends_example : Settled run_list stack never never-Behaves work 4 less_work spawned_7 (
    schedule run_list stack never
      (amount work spawned_7 + 1)
      (rank run_list stack never never-Behaves work 4 less_work spawned_7 + 1)
      spawned_7)
schedule_ends_example =
    schedule_ends run_list stack never never-Behaves work 4 less_work (amount work spawned_7 + 1)
      (rank run_list stack never never-Behaves work 4 less_work spawned_7 + 1) spawned_7
      four_priorities (inv_at reach_spawned) (omega arith) (omega arith)

abbrev no_hook : Spawner ℕ → Outcome (Spawner ℕ)
no_hook s = done s

machine_soft_ends_example :
    ((spawned_7.pend_marker ≡ true)
      × (machine_soft run_list stack never no_hook
            (amount work spawned_7 + 1)
            (rank run_list stack never never-Behaves work 4 less_work spawned_7 + 1)
            spawned_7
          ≡ schedule run_list stack never
              (amount work spawned_7 + 1)
              (rank run_list stack never never-Behaves work 4 less_work spawned_7 + 1)
              (record spawned_7 { pend_marker = false; msip = false }))
      × Settled run_list stack never never-Behaves work 4 less_work spawned_7 (
          machine_soft run_list stack never no_hook
            (amount work spawned_7 + 1)
            (rank run_list stack never never-Behaves work 4 less_work spawned_7 + 1)
            spawned_7))
    ⊎ ((spawned_7.pend_marker ≡ false)
        × (machine_soft run_list stack never no_hook
              (amount work spawned_7 + 1)
              (rank run_list stack never never-Behaves work 4 less_work spawned_7 + 1)
              spawned_7
            ≡ some (done (record spawned_7 { pend_marker = false; msip = false }))))
machine_soft_ends_example =
    machine_soft_ends run_list stack never never-Behaves work 4 less_work no_hook
      (amount work spawned_7 + 1)
      (rank run_list stack never never-Behaves work 4 less_work spawned_7 + 1) spawned_7 spawned_7
      refl four_priorities (inv_at reach_spawned) (omega arith) (omega arith)
