-- ===== src/Kernel/Tests/Examples.antt =====
-- The theorems on executor.rs, spawner.rs and storage.rs at the states of the run.
use rt_async.Base.{
  if◌then◌else◌, ◌==◌, ◌∷◌, ℕ, ◌≡◌, ◌≢◌, ◌<◌, ◌⊎◌, refl, none, some, List, [], arith,
}
use rt_async.Base.Bits.{trailing_zeros, test_bit}
use rt_async.Bitmap
use rt_async.Priority
use rt_async.Bitmap.{highest}
use rt_async.Task.{new_task}
use rt_async.Task.State
use rt_async.Kernel.Tests.{
  or_else, created, started, stored, spawned_7, running, taken, woken, finished, new_run, spawn_run,
  preempt_run, take_run, wake_run, finish_run, flags_run,
}
use rt_async.External.Model.{run_list, stack}
use rt_async.Base.Outcome.{done}
use rt_async.Task.State.Flags.{spawned, run_queued}
use rt_async.Kernel.{
  Spawner, init, storage_spawn, pend, wake_task, take_next, finish_poll, enqueue, begin_enqueue,
  link, bm_set, complete_task,
}
use rt_async.Kernel.Dispatch.{spawn, try_preempt, pend_if_higher, should_pend, push_prio}
use rt_async.Kernel.Invariant.{occurs, Inv}
use rt_async.Kernel.Steps.{
  Reach, here, next, Reach-Inv, storage_spawns, begins_enqueue, spawns, preempts, takes, wakes,
  finishes,
}
use rt_async.Kernel.Spawns.{Started, storage_spawn_lem}
use rt_async.Kernel.Take.{Takes, Drained, take_next_lem, after_take}
use rt_async.Kernel.Preempt.{Starts, Stays, try_preempt_lem}
use rt_async.Kernel.Mark.{after_section, link_lem}
use rt_async.Bitmap.{PriorityBitmap}
use rt_async.Bitmap.Digits.{digit}
use rt_async.Kernel.Respawn.{respawn_lost, respawned}

stored_polls : (stored.tasks 7).poll_fn ≢ none
unfolding storage_spawn init new_task State.spawn
stored_polls e = cc

reach_stored : Reach run_list stack started stored
reach_stored = next here (storage_spawns 7 refl)

pub reach_spawned : Reach run_list stack started spawned_7
reach_spawned = next reach_stored (spawns 2 7 stored_polls spawn_run)

pub reach_running : Reach run_list stack started running
reach_running = next reach_spawned (preempts (some 2) preempt_run)

pub inside : 2 < running.size
unfolding storage_spawn spawn enqueue begin_enqueue link bm_set init State.spawn State.run_enqueue
    Bitmap.set pend_if_higher should_pend pend Bitmap.highest trailing_zeros new_task try_preempt
    push_prio Priority.is_lower_than
inside = omega arith

running_polls : (running.tasks 7).poll_fn ≢ none
unfolding storage_spawn spawn enqueue begin_enqueue link bm_set init State.spawn State.run_enqueue
    Bitmap.set pend_if_higher should_pend pend Bitmap.highest trailing_zeros new_task try_preempt
    push_prio Priority.is_lower_than
running_polls e = cc

reach_taken : Reach run_list stack started taken
reach_taken = next reach_running (takes 2 (some 7) inside take_run)

reach_woken : Reach run_list stack started woken
reach_woken = next reach_taken (wakes 7 wake_run)

reach_finished : Reach run_list stack started finished
reach_finished = next reach_woken (finishes 7 (some 5) finish_run)

pub inv_at : {s : Spawner ℕ} → Reach run_list stack started s → Inv s
inv_at r = Reach-Inv run_list stack 4 created new_run r

Reach-Inv_example : Inv finished
Reach-Inv_example = Reach-Inv run_list stack 4 created new_run reach_finished

try_preempt_lem_example :
    ((p : ℕ) × Starts stack spawned_7 (inv_at reach_spawned) p)
    ⊎ Stays stack spawned_7 (inv_at reach_spawned)
try_preempt_lem_example = try_preempt_lem stack spawned_7 (inv_at reach_spawned)

take_next_lem_example : Takes run_list running 2 ⊎ Drained run_list running 2
take_next_lem_example = take_next_lem run_list running 2 (inv_at reach_running) inside

storage_spawn_lem_example :
    Inv stored
    × (spawned (stored.tasks 7).state ≡ 1)
    × Started started 7 stored (storage_spawn started 7).1
storage_spawn_lem_example = storage_spawn_lem started 7 (inv_at here)

queued_run : run_queued (spawned_7.tasks 7).state ≡ 1
unfolding storage_spawn spawn enqueue begin_enqueue link bm_set init State.spawn State.run_enqueue
    Bitmap.set pend_if_higher should_pend pend Bitmap.highest trailing_zeros new_task test_bit
queued_run = refl

idle_run : spawned_7.prio_stack ≡ []
unfolding storage_spawn spawn enqueue begin_enqueue link bm_set init State.spawn State.run_enqueue
    Bitmap.set pend_if_higher should_pend pend Bitmap.highest trailing_zeros new_task
idle_run = refl

inside_finished : 1 < finished.size
unfolding storage_spawn spawn enqueue begin_enqueue link bm_set init State.spawn State.run_enqueue
    Bitmap.set pend_if_higher should_pend pend Bitmap.highest trailing_zeros new_task try_preempt
    push_prio Priority.is_lower_than take_next State.run_dequeue wake_task finish_poll complete_task
inside_finished = omega arith

queued_finished : 0 < occurs 7 (finished.run_queue 2)
unfolding storage_spawn spawn enqueue begin_enqueue link bm_set init State.spawn State.run_enqueue
    Bitmap.set pend_if_higher should_pend pend Bitmap.highest trailing_zeros new_task try_preempt
    push_prio Priority.is_lower_than take_next State.run_dequeue wake_task finish_poll complete_task
queued_finished = omega arith

respawn_lost_example :
    let s' = respawned run_list stack finished 1 7 in
    ((storage_spawn finished 7).1 ≡ some 7)
    × (spawn run_list stack (storage_spawn finished 7).0 1 7 ≡ done s')
    × (spawned (s'.tasks 7).state ≡ 1)
    × ((s'.tasks 7).executor_ptr ≡ none)
    × (occurs 7 (s'.run_queue 2) ≡ 1)
    × (occurs 7 (s'.run_queue 1) ≡ 0)
    × (wake_task run_list s' 7 ≡ done s')
    × ((rest : List ℕ)
        → s'.run_queue 2 ≡ 7 ∷ rest
        → let s'' = after_take s' 2 7 rest in
          (take_next run_list s' 2 ≡ done (s'', some 7))
          × (spawned (s''.tasks 7).state ≡ 1)
          × ((p : ℕ) → occurs 7 (s''.run_queue p) ≡ 0)
          × (wake_task run_list s'' 7 ≡ done s''))
respawn_lost_example =
    respawn_lost run_list stack finished 2 1 7 (inv_at reach_finished) flags_run.0 flags_run.2
      queued_finished (omega arith) inside_finished

-- Task 8 is spawned while the `enqueue` of task 7 stands between its atomic and its critical section.
abbrev marked : Spawner ℕ
marked = (begin_enqueue (storage_spawn stored 8).0 7).0

abbrev preempting : Spawner ℕ
preempting = or_else marked (spawn run_list stack marked 1 8)

both_stored : Reach run_list stack started (storage_spawn stored 8).0
both_stored = next reach_stored (storage_spawns 8 refl)

polls_7 : ((storage_spawn stored 8).0.tasks 7).poll_fn ≢ none
unfolding storage_spawn init new_task State.spawn
polls_7 e = cc

polls_8 : (marked.tasks 8).poll_fn ≢ none
unfolding storage_spawn init new_task State.spawn begin_enqueue State.run_enqueue
polls_8 e = cc

preempting_run : spawn run_list stack marked 1 8 ≡ done preempting
unfolding storage_spawn spawn enqueue begin_enqueue link bm_set init State.spawn State.run_enqueue
    Bitmap.set pend_if_higher should_pend pend Bitmap.highest trailing_zeros new_task
preempting_run = refl

reach_preempting : Reach run_list stack started preempting
reach_preempting =
    next (next both_stored (begins_enqueue 7 polls_7 refl)) (spawns 1 8 polls_8 preempting_run)

inside_preempting : 2 < preempting.size
unfolding storage_spawn spawn enqueue begin_enqueue link bm_set init State.spawn State.run_enqueue
    Bitmap.set pend_if_higher should_pend pend Bitmap.highest trailing_zeros new_task
inside_preempting = omega arith

linking_7 : preempting.linking 7 ≡ 1
unfolding storage_spawn spawn enqueue begin_enqueue link bm_set init State.spawn State.run_enqueue
    Bitmap.set pend_if_higher should_pend pend Bitmap.highest trailing_zeros new_task
linking_7 = refl

link_lem_example :
    (bm : PriorityBitmap) × (link run_list preempting 2 7 ≡ done (after_section preempting 2 7 bm))
    × ((q : ℕ) → digit bm q ≡ (if 2 == q then 1 else digit preempting.bitmap q))
    × Inv (after_section preempting 2 7 bm)
link_lem_example =
    link_lem run_list preempting 2 7 (inv_at reach_preempting) inside_preempting linking_7
