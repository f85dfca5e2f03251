-- ===== src/Kernel/Frame.antt =====
-- A step of storage.rs or join_handle.rs that changes the fields of one task only.
use rt_async.Base.{ℕ, ◌<◌, ◌≡◌, ◌≢◌, true, false, none, some, arith}
use rt_async.Task.{Task, task_poll}
use rt_async.Task.State.Flags.{spawned, run_queued}
use rt_async.Kernel.{Spawner, set_task}
use rt_async.Kernel.Invariant.{Inv}

-- The conditions of `Alive` on one task.
pub record TaskAlive {Out : Type 0} (size : ℕ) (task : Task Out) : Type 0 where
  pub live : spawned task.state ≡ 1 → (task.poll_fn ≡ some task_poll) × (task.future ≡ true)
  pub dead : spawned task.state ≡ 0 → task.future ≡ false
  pub polled : run_queued task.state ≡ 1 → task.poll_fn ≢ none
  pub owned : (e : ℕ) → task.executor_ptr ≡ some e → (e < size) × (task.poll_fn ≢ none)

module _ {Out : Type 0} where
  pub TaskAlive-of_Inv : {s : Spawner Out} → Inv s → (t : ℕ) → TaskAlive s.size (s.tasks t)
  TaskAlive-of_Inv v t = record {
    live = v.alive.live t;
    dead = v.alive.dead t;
    polled = v.alive.polled t;
    owned = v.alive.owned t;
  }

  -- A task may take any new fields that keep its queued flag and suit its flags.
  pub set_task-Inv :
      (s : Spawner Out) (t : ℕ) (task : Task Out)
      → Inv s
      → run_queued task.state ≡ run_queued (s.tasks t).state
      → TaskAlive s.size task
      → Inv (set_task s t task)
  set_task-Inv s t task v same a = record {
    visible = record {
      ready = v.visible.ready;
      small = v.visible.small;
      valid = v.visible.valid;
      groups = v.visible.groups;
      inside = v.visible.inside;
      shown = v.visible.shown;
      rising = v.visible.rising;
    };
    linked = record {
      once = λ u p q ne. ground (arith, v.linked.once u p q ne);
      somewhere = λ u h. v.linked.somewhere u (ground arith);
    };
    alive = record {
      live = λ u h. ground (arith, a.live, v.alive.live u);
      dead = λ u h. ground (arith, a.dead, v.alive.dead u);
      polled = λ u h. ground (arith, a.polled, v.alive.polled u);
      owned = λ u e h. ground (arith, a.owned e, v.alive.owned u e);
    };
  }
