-- ===== src/Kernel.antt =====
-- modules/executor/src/executor.rs, spawner.rs, task/storage.rs, task/run_queue.rs, task/waker.rs and
-- task/join_handle.rs, with `pend` and `clear_pend` of modules/platform/src/lib.rs: the executors of
-- all priorities, their tasks and the scheduler, as one state on one hart.
-- Each call is one function here, composed of the functions for its atomics and critical sections, which
-- Kernel/Steps lets other code come between. What a future does while it is polled, the
-- interrupts that it is preempted by included, is an argument (`future` of `run`); in `run` no interrupt
-- comes outside a poll.

pub mod Dispatch
pub mod Invariant
pub mod Mark
pub mod Link
pub mod Frame
pub mod Wake
pub mod Preempt
pub mod Take
pub mod Respawn
pub mod Run
pub mod Steps
pub mod Tests
pub mod Spawns
use rt_async.Base.{
  ℕ, zero, suc, Bool, true, false, Option, none, some, List, [], ltb, leb, ◌&&◌, if◌then◌else◌,
  update,
}
use rt_async.Base.Outcome.{Outcome, done, panic, ◌>>=◌}
use rt_async.Bitmap
use rt_async.Bitmap.{PriorityBitmap}
use rt_async.External.{IntrusiveList, VecStack}
use rt_async.Priority
use rt_async.Task.{Task, task_poll, poll_exited, new_task}
use rt_async.Task.State

-- `Spawner<N>` with its executors and the tasks that it may run. `run_queue p` is the queue of
-- `executors[p]`, `prio_stack` has the running priority first, `initialized` says that `init` has
-- installed the bitmap operations, and `msip` is the pending bit of the software interrupt. `linking t`
-- is 1 while some call of `enqueue` has raised the flag of `t` and has yet to link it, and 0 otherwise: it
-- says where the code stands that is preempted there.
pub record Spawner (Out : Type 0) : Type 0 where
  pub size : ℕ
  pub initialized : Bool
  pub tasks : ℕ → Task Out
  pub run_queue : ℕ → List ℕ
  pub bitmap : PriorityBitmap
  pub prio_stack : List ℕ
  pub pend_marker : Bool
  pub msip : Bool
  pub linking : ℕ → ℕ

-- `Spawner::new`, over tasks that are all unspawned
unfoldable pub new : (Out : Type 0) → ℕ → Outcome (Spawner Out)
new Out size =
    if ltb 0 size && leb size 4096
    then (do
      bitmap ← Bitmap.new 64
      done (record {
        size = size;
        initialized = false;
        tasks = λ t. new_task Out;
        run_queue = λ p. [];
        bitmap = bitmap;
        prio_stack = [];
        pend_marker = false;
        msip = false;
        linking = λ t. 0;
      }))
    else panic

module _ {Out : Type 0} where
  unfoldable pub init : Spawner Out → Spawner Out
  init s = record s { initialized = true }

  -- The `set` and `clear` of an executor's `BitmapOps`: `not_initialized` before `init`.
  unfoldable pub bm_set : Spawner Out → ℕ → Outcome (Spawner Out)
  bm_set s prio =
      if s.initialized
      then (do bitmap ← Bitmap.set s.bitmap prio; done (record s { bitmap = bitmap }))
      else panic

  unfoldable pub bm_clear : Spawner Out → ℕ → Outcome (Spawner Out)
  bm_clear s prio =
      if s.initialized
      then (do bitmap ← Bitmap.clear s.bitmap prio; done (record s { bitmap = bitmap }))
      else panic

  -- `platform::pend`
  unfoldable pub pend : Spawner Out → Spawner Out
  pend s = record s { pend_marker = true; msip = true }

  -- `platform::clear_pend`
  unfoldable pub clear_pend : Spawner Out → Spawner Out × Bool
  clear_pend s = (record s { pend_marker = false; msip = false }, s.pend_marker)

  abbrev pub set_task : Spawner Out → ℕ → Task Out → Spawner Out
  set_task s t task = record s { tasks = update s.tasks t task }

  -- `TaskStorage::spawn`; the token is the task's `TaskRef`.
  unfoldable pub storage_spawn : Spawner Out → ℕ → Spawner Out × Option ℕ
  storage_spawn s t =
      let (bits, first) = State.spawn (s.tasks t).state in
      if first
      then (
        set_task s t (record (s.tasks t) {
          state = bits;
          result = none;
          waker = none;
          poll_fn = some task_poll;
          future = true;
          cell = 0;
        }),
        some t,
      )
      else (set_task s t (record (s.tasks t) { state = bits }), none)

  -- `JoinHandle::poll`, by a task whose waker is `cx`
  unfoldable pub join_poll : Spawner Out → ℕ → ℕ → Spawner Out × Option Out
  join_poll s t cx = elim (s.tasks t).result [
    | some value ↦ (set_task s t (record (s.tasks t) { result = none }), some value)
    | none ↦ (set_task s t (record (s.tasks t) { waker = some cx }), none)
  ]

  -- The atomic of `run_enqueue`, with which `Executor::enqueue` begins; `true` if the flag was down, and
  -- then this caller is to link the task
  unfoldable pub begin_enqueue : Spawner Out → ℕ → Spawner Out × Bool
  begin_enqueue s t =
      let (bits, first) = State.run_enqueue (s.tasks t).state in
      (
        record s {
          tasks = update s.tasks t (record (s.tasks t) { state = bits });
          linking = (if first then update s.linking t 1 else s.linking);
        },
        first,
      )

module _ {Out : Type 0} (run_list : IntrusiveList ℕ) where
  -- The critical section of `Executor::enqueue`
  unfoldable pub link : Spawner Out → ℕ → ℕ → Outcome (Spawner Out)
  link s e t =
      bm_set
        (record s {
          tasks = update s.tasks t (record (s.tasks t) { executor_ptr = some e });
          run_queue = update s.run_queue e (run_list.push_back (s.run_queue e) t);
          linking = update s.linking t 0;
        })
        e

  -- `Executor::enqueue` on the executor of priority `e`; `true` if the task was linked
  unfoldable pub enqueue : Spawner Out → ℕ → ℕ → Outcome (Spawner Out × Bool)
  enqueue s e t =
      let (s₁, first) = begin_enqueue s t in
      if first then (do s' ← link s₁ e t; done (s', true)) else done (s₁, false)

  -- `wake_task`, the callback of a task's waker
  unfoldable pub wake_task : Spawner Out → ℕ → Outcome (Spawner Out)
  wake_task s t = elim (s.tasks t).executor_ptr [
    | none ↦ done s
    | some e ↦ do (s', linked) ← enqueue s e t; done (if linked then pend s' else s')
  ]

  -- The critical section of `Executor::run`: `RunQueue::dequeue`, or the bit is cleared.
  unfoldable pub take_next : Spawner Out → ℕ → Outcome (Spawner Out × Option ℕ)
  take_next s e = elim (run_list.pop_front (s.run_queue e)) [
    | some (t, rest) ↦ done (
      record s {
        tasks =
            update s.tasks t (record (s.tasks t) { state = State.run_dequeue (s.tasks t).state });
        run_queue = update s.run_queue e rest;
      },
      some t,
    )
    | none ↦ do s' ← bm_clear s e; done (s', none)
  ]

  -- What `TaskStorage::poll` does once the future has returned `Ready(output)`.
  unfoldable pub complete_task : Spawner Out → ℕ → Out → Outcome (Spawner Out)
  complete_task s t output =
      let finished = set_task s t (record (s.tasks t) {
        state = State.despawn (s.tasks t).state;
        executor_ptr = none;
        poll_fn = some poll_exited;
        result = some output;
        waker = none;
        future = false;
      }) in
      elim (s.tasks t).waker [ none ↦ done finished | some w ↦ wake_task finished w ]

  -- `TaskStorage::poll` after its future's answer, `none` for `Pending`
  unfoldable pub finish_poll : Spawner Out → ℕ → Option Out → Outcome (Spawner Out)
  finish_poll s t none = done s
  finish_poll s t (some output) = complete_task s t output

  -- A call of `poll_fn`: `unwrap` panics on a task that was never spawned.
  unfoldable pub poll :
      (ℕ → Spawner Out → Outcome (Spawner Out × Option Out))
      → Spawner Out
      → ℕ
      → Outcome (Spawner Out)
  poll future s t = elim (s.tasks t).poll_fn [
    | none ↦ panic
    | some fn ↦ elim fn [
      | task_poll ↦ do (s', answer) ← future t s; finish_poll s' t answer
      | poll_exited ↦ done s
    ]
  ]

  -- `Executor::run` on the executor of priority `e`; `none` if the fuel runs out
  unfoldable pub run :
      (ℕ → Spawner Out → Outcome (Spawner Out × Option Out))
      → ℕ
      → ℕ
      → Spawner Out
      → Option (Outcome (Spawner Out))
  run future zero e s = none
  run future (suc fuel) e s = elim (take_next s e) [
    | panic ↦ some panic
    | done (s', next) ↦ elim next [
      | none ↦ some (done s')
      | some t ↦ elim (poll future s' t) [ panic ↦ some panic | done s'' ↦ run future fuel e s'' ]
    ]
  ]

  -- `Spawner::run`: indexing the array of executors panics on a priority that does not exist.
  unfoldable pub run_executor :
      (ℕ → Spawner Out → Outcome (Spawner Out × Option Out))
      → ℕ
      → ℕ
      → Spawner Out
      → Option (Outcome (Spawner Out))
  run_executor future fuel e s = if ltb e s.size then run future fuel e s else some panic
