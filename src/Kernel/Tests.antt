-- ===== src/Kernel/Tests.antt =====
-- A run of executor.rs, spawner.rs and storage.rs with four priorities: task 7 is
-- spawned at priority 2 and starts running, is woken during its last poll and finishes.
pub mod Examples
pub mod RunExamples
use rt_async.Base.{some, none, [], refl, false, ℕ, ◌≡◌, replicate}
use rt_async.Base.Bits.{trailing_zeros, test_bit}
use rt_async.Base.Outcome.{Outcome, done, panic, done_injective, unwrap, ◌>>=◌}
use rt_async.External.Model.{run_list, stack}
use rt_async.Bitmap
use rt_async.Bitmap.{PriorityBitmap}
use rt_async.Priority
use rt_async.Task.{Task, new_task, task_poll}
use rt_async.Task.State
use rt_async.Kernel.{
  Spawner, new, init, storage_spawn, join_poll, pend, clear_pend, wake_task, take_next, finish_poll,
  enqueue, begin_enqueue, link, bm_set, bm_clear, complete_task, poll, run,
}
use rt_async.Kernel.Dispatch.{
  spawn, try_preempt, complete_executor, pend_if_higher, should_pend, push_prio,
}
use rt_async.Task.State.Flags.{spawned, run_queued}
use rt_async.Kernel.Invariant.{Inv}
use rt_async.Kernel.Steps.{Reach, here, next, Step, Reach-Inv}

-- The value of an outcome, or `x` after a panic.
abbrev pub or_else : {A : Type 0} → A → Outcome A → A
or_else x (done a) = a
or_else x panic = x

-- `new` and `init`
abbrev pub created : Spawner ℕ
created = record {
  size = 4;
  initialized = false;
  tasks = λ t. new_task ℕ;
  run_queue = λ p. [];
  bitmap = record { group_map = 0; group_table = replicate 64 0 };
  prio_stack = [];
  pend_marker = false;
  msip = false;
  linking = λ t. 0;
}

pub new_run : new ℕ 4 ≡ done created
unfolding new Bitmap.new
new_run = refl

abbrev pub started : Spawner ℕ
started = init created

-- `TaskStorage::spawn` of task 7
abbrev pub stored : Spawner ℕ
stored = (storage_spawn started 7).0

-- `Spawner::spawn` of task 7 at priority 2
abbrev pub spawned_7 : Spawner ℕ
spawned_7 = or_else stored (spawn run_list stack stored 2 7)

pub spawn_run : spawn run_list stack stored 2 7 ≡ done spawned_7
unfolding storage_spawn spawn enqueue begin_enqueue link bm_set init State.spawn State.run_enqueue
    Bitmap.set pend_if_higher should_pend pend Bitmap.highest trailing_zeros new_task
spawn_run = refl

-- `try_preempt` starts priority 2.
abbrev pub running : Spawner ℕ
running = (or_else (spawned_7, none) (try_preempt stack spawned_7)).0

pub preempt_run : try_preempt stack spawned_7 ≡ done (running, some 2)
unfolding storage_spawn spawn enqueue begin_enqueue link bm_set init State.spawn State.run_enqueue
    Bitmap.set pend_if_higher should_pend pend Bitmap.highest trailing_zeros new_task try_preempt
    push_prio Priority.is_lower_than
preempt_run = refl

-- The run loop takes task 7.
abbrev pub taken : Spawner ℕ
taken = (or_else (running, none) (take_next run_list running 2)).0

pub take_run : take_next run_list running 2 ≡ done (taken, some 7)
unfolding storage_spawn spawn enqueue begin_enqueue link bm_set init State.spawn State.run_enqueue
    Bitmap.set pend_if_higher should_pend pend Bitmap.highest trailing_zeros new_task try_preempt
    push_prio Priority.is_lower_than take_next
take_run = refl

-- It is woken during its poll.
abbrev pub woken : Spawner ℕ
woken = or_else taken (wake_task run_list taken 7)

pub wake_run : wake_task run_list taken 7 ≡ done woken
unfolding storage_spawn spawn enqueue begin_enqueue link bm_set init State.spawn State.run_enqueue
    Bitmap.set pend_if_higher should_pend pend Bitmap.highest trailing_zeros new_task try_preempt
    push_prio Priority.is_lower_than take_next State.run_dequeue wake_task
wake_run = refl

-- Its future is ready with 5.
abbrev pub finished : Spawner ℕ
finished = or_else woken (finish_poll run_list woken 7 (some 5))

pub finish_run : finish_poll run_list woken 7 (some 5) ≡ done finished
unfolding storage_spawn spawn enqueue begin_enqueue link bm_set init State.spawn State.run_enqueue
    Bitmap.set pend_if_higher should_pend pend Bitmap.highest trailing_zeros new_task try_preempt
    push_prio Priority.is_lower_than take_next State.run_dequeue wake_task finish_poll complete_task
finish_run = refl

pub flags_run :
    (spawned (finished.tasks 7).state ≡ 0)
    × (run_queued (finished.tasks 7).state ≡ 1)
    × ((finished.tasks 7).executor_ptr ≡ none)
unfolding storage_spawn spawn enqueue begin_enqueue link bm_set init State.spawn State.run_enqueue
    Bitmap.set pend_if_higher should_pend pend Bitmap.highest trailing_zeros new_task try_preempt
    push_prio Priority.is_lower_than take_next State.run_dequeue wake_task finish_poll complete_task
    State.despawn test_bit
flags_run = (refl, refl, refl)
