-- ===== src/Kernel/Wake.antt =====
-- `wake_task` of executor.rs, and what `TaskStorage::poll` of storage.rs does when a future is ready.
use rt_async.Base.{
  Bool, if◌then◌else◌, ◌⊎◌, true, [], ◌∷◌, ◌++◌, update, refl, Option-cases, ℕ, ◌≡◌, false, Option,
  none, some, arith, inl, inr,
}
use rt_async.Base.Outcome.{Outcome, done}
use rt_async.External.{IntrusiveList}
use rt_async.Task.{poll_exited}
use rt_async.Task.State
use rt_async.Task.State.Flags.{run_queued, run_enqueue_lem, despawn_lem}
use rt_async.Kernel.{Spawner, set_task, pend, enqueue, wake_task, complete_task, finish_poll}
use rt_async.Kernel.Invariant.{Inv}
use rt_async.Kernel.Link.{enqueue_lem, after_link, after_skip, skip-Inv, pend-Inv}
use rt_async.Kernel.Frame.{set_task-Inv}

module _ {Out : Type 0} (run_list : IntrusiveList ℕ) where
  -- A step that does not panic, keeps the invariant, the number of priorities and the stack.
  abbrev pub Keeps : Spawner Out → Outcome (Spawner Out) → Type 0
  Keeps s r =
      (s' : Spawner Out) × (r ≡ done s')
      × Inv s'
      × (s'.size ≡ s.size)
      × (s'.prio_stack ≡ s.prio_stack)

  -- What waking a task does: nothing to one that has no executor. Of one that has an executor and was
  -- linked already, only the flag byte changes; otherwise it now stands last in the queue of its
  -- executor, with its flag up, and the software interrupt is pending.
  abbrev pub Woken : Spawner Out → ℕ → Spawner Out → Type 0
  Woken s t s' =
      (((s.tasks t).executor_ptr ≡ none) × (s' ≡ s))
      ⊎ ((e : ℕ) × ((s.tasks t).executor_ptr ≡ some e)
          × (((run_queued (s.tasks t).state ≡ 1) × (s' ≡ after_skip s e t))
              ⊎ ((run_queued (s.tasks t).state ≡ 0)
                  × (run_queued (s'.tasks t).state ≡ 1)
                  × (s'.run_queue ≡ update s.run_queue e (s.run_queue e ++ (t ∷ [])))
                  × (s'.pend_marker ≡ true)
                  × (s'.msip ≡ true))))

  wake_linked :
      (s : Spawner Out) (t e : ℕ) (linked : Bool) (s' : Spawner Out)
      → (s.tasks t).executor_ptr ≡ some e
      → enqueue run_list s e t ≡ done (s', linked)
      → wake_task run_list s t ≡ done (if linked then pend s' else s')
  unfolding wake_task
  wake_linked s t e linked s' on eq = rw (on, wake_task, eq)

  pub wake_task-Inv :
      (s : Spawner Out) (t : ℕ)
      → Inv s
      → (s' : Spawner Out) × (wake_task run_list s t ≡ done s')
        × Inv s'
        × (s'.size ≡ s.size)
        × (s'.prio_stack ≡ s.prio_stack)
        × Woken s t s'
  unfolding wake_task pend
  wake_task-Inv s t v = elim (Option-cases (s.tasks t).executor_ptr) [
    | inl off ↦ (s, rw (off, wake_task), v, refl, refl, inl (off, refl))
    | inr (e, on) ↦
        let (he, fn) = v.alive.owned t e on in
        elim (enqueue_lem run_list s e t v he fn) [
          | inl (up, eq) ↦ (
            after_skip s e t,
            wake_linked s t e false _ on eq,
            skip-Inv s e t v up,
            refl,
            refl,
            inr (e, on, inl (up, refl)),
          )
          | inr (bm, down, eq, _, ok) ↦ (
            pend (after_link s e t bm),
            wake_linked s t e true _ on eq,
            pend-Inv (after_link s e t bm) ok,
            refl,
            refl,
            inr (
              e,
              on,
              inr (down, ground (arith, run_enqueue_lem (s.tasks t).state), refl, refl, refl),
            ),
          )
        ]
  ]

  abbrev pub completed : Spawner Out → ℕ → Out → Spawner Out
  completed s t output = set_task s t (record (s.tasks t) {
    state = State.despawn (s.tasks t).state;
    executor_ptr = none;
    poll_fn = some poll_exited;
    result = some output;
    waker = none;
    future = false;
  })

  completed-Inv : (s : Spawner Out) (t : ℕ) (output : Out) → Inv s → Inv (completed s t output)
  completed-Inv s t output v = set_task-Inv s t _ v (despawn_lem (s.tasks t).state).1 (record {
    live = λ h. absurd (omega (arith, despawn_lem (s.tasks t).state));
    dead = λ h. refl;
    polled = λ h e. cc;
    owned = λ e h. cc;
  })

  -- In a state with the invariant, a poll's end, whatever the future answered, does not panic and
  -- keeps the invariant, the number of priorities and the priority stack.
  pub finish_poll-Inv :
      (s : Spawner Out) (t : ℕ) (answer : Option Out)
      → Inv s
      → Keeps s (finish_poll run_list s t answer)
  unfolding finish_poll complete_task
  finish_poll-Inv s t none v = (s, refl, v, refl, refl)
  finish_poll-Inv s t (some output) v = elim (Option-cases (s.tasks t).waker) [
    | inl off ↦
        (completed s t output, rw (off, complete_task), completed-Inv s t output v, refl, refl)
    | inr (w, on) ↦
        let (s', eq, ok, size, stack, _) =
          wake_task-Inv (completed s t output) w (completed-Inv s t output v) in
        (s', rw (on, complete_task) eq, ok, size, stack)
  ]
