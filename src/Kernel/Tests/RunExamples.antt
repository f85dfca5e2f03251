-- ===== src/Kernel/Tests/RunExamples.antt =====
-- `Executor::run` of executor.rs with a future that is always pending: each poll takes one task off
-- the queue and links none.
use rt_async.Base.{
  sym, ℕ, ◌≡◌, ◌<◌, ◌+◌, Option-cases, eq-cases, if◌then◌else◌, ◌==◌, Option, false, none, some,
  List, [], ◌∷◌, length, refl, arith, ap, inl, inr,
}
use rt_async.Base.Outcome.{Outcome, done, panic, ◌>>=◌}
use rt_async.External.Model.{run_list}
use rt_async.Bitmap.Digits.{digit}
use rt_async.Task.{Task, task_poll, poll_exited, new_task}
use rt_async.Bitmap
use rt_async.Base.Bits.{trailing_zeros}
use rt_async.Priority
use rt_async.Task.State
use rt_async.Kernel.{
  Spawner, poll, run, run_executor, finish_poll, set_task, wake_task, storage_spawn, enqueue,
  begin_enqueue, link, bm_set, bm_clear, init, pend, take_next, complete_task,
}
use rt_async.Kernel.Dispatch.{spawn, pend_if_higher, should_pend, try_preempt, push_prio}
use rt_async.Kernel.Frame.{TaskAlive-of_Inv, set_task-Inv}
use rt_async.Kernel.Wake.{wake_task-Inv}
use rt_async.Kernel.Invariant.{Inv}
use rt_async.Kernel.Run.{amount, Future, Behaves, run_ends}
use rt_async.Kernel.Take.{after_take}
use rt_async.Kernel.Tests.{running}
use rt_async.Kernel.Tests.Examples.{inv_at, reach_running, inside}

abbrev pub never : Future ℕ
never t s = done (s, none)

pub never-Behaves : Behaves never
never-Behaves t s v = (s, none, refl, v, refl, refl)

abbrev work : (ℕ → Task ℕ) → (ℕ → List ℕ) → ℕ
work tasks run_queue = length (run_queue 2)

pub poll_keeps : (s s' : Spawner ℕ) (t : ℕ) → poll run_list never s t ≡ done s' → s ≡ s'
unfolding poll finish_poll
poll_keeps s s' t e = elim (Option-cases (s.tasks t).poll_fn) [
  | inl off ↦ absurd (ground (arith, off, e))
  | inr (task_poll, on) ↦ ground (arith, on, e)
  | inr (poll_exited, on) ↦ ground (arith, on, e)
]

less_work :
    (s s' : Spawner ℕ) (t : ℕ) (rest : List ℕ)
    → s.size ≡ running.size
    → Inv s
    → s.run_queue 2 ≡ t ∷ rest
    → poll run_list never (after_take s 2 t rest) t ≡ done s'
    → amount work s' < amount work s
less_work s s' t rest same_size v q e =
    let same = poll_keeps (after_take s 2 t rest) s' t e in
    let fewer : amount work s' ≡ length rest = ap (amount work) (sym same) in
    omega (arith, fewer, ap (λ xs. length xs) q)

run_ends_example :
    (s' : Spawner ℕ) × (run_executor run_list never (amount work running + 1) 2 running
      ≡ some (done s'))
    × Inv s'
    × (s'.run_queue 2 ≡ [])
    × (digit s'.bitmap 2 ≡ 0)
    × (s'.prio_stack ≡ running.prio_stack)
run_ends_example =
    run_ends run_list never never-Behaves work 2 running less_work (amount work running + 1)
      (omega arith) (inv_at reach_running) inside

-- The future `PendingOnce` of the tests of executor.rs: it wakes itself at its first poll, and is ready
-- at the second.
abbrev pending_once : Future ℕ
pending_once t s =
    if (s.tasks t).cell == 0
    then (do
      s' ← wake_task run_list (set_task s t (record (s.tasks t) { cell = 1 })) t
      done (s', none))
    else done (s, some 9)

pending_once-Behaves : Behaves pending_once
pending_once-Behaves t s v = elim (eq-cases (s.tasks t).cell 0) [
  | inl first ↦
      let a = TaskAlive-of_Inv v t in
      let s₁ = set_task s t (record (s.tasks t) { cell = 1 }) in
      let ok : Inv s₁ =
        set_task-Inv s t (record (s.tasks t) { cell = 1 }) v refl
          (record { live = a.live; dead = a.dead; polled = a.polled; owned = a.owned }) in
      let (s', eq, ok', size, stack, _) = wake_task-Inv run_list s₁ t ok in
      (s', none, ground (arith, first, eq), ok', size, stack)
  | inr again ↦ (s, some 9, ground (arith, again), v, refl, refl)
]

abbrev after_run : Option (Outcome (Spawner ℕ)) → Spawner ℕ
after_run none = running
after_run (some panic) = running
after_run (some (done s)) = s

-- Two polls, and the third turn of the loop finds the queue empty.
pending_once_run :
    let s = after_run (run_executor run_list pending_once 3 2 running) in
    (run_executor run_list pending_once 3 2 running ≡ some (done s))
    × ((s.tasks 7).result ≡ some 9)
    × ((s.tasks 7).cell ≡ 1)
    × ((s.tasks 7).future ≡ false)
unfolding storage_spawn spawn enqueue begin_enqueue link bm_set bm_clear init State.spawn
    State.run_enqueue Bitmap.set Bitmap.clear pend_if_higher should_pend pend Bitmap.highest
    trailing_zeros new_task try_preempt push_prio Priority.is_lower_than take_next State.run_dequeue
    wake_task finish_poll complete_task run_executor run poll State.despawn
pending_once_run = (refl, refl, refl, refl)
