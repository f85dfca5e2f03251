-- ===== src/Kernel/Spawns.antt =====
-- `TaskStorage::spawn` of storage.rs, `JoinHandle::poll` of join_handle.rs, and the check at the end of
-- `Spawner::spawn` of spawner.rs.
use rt_async.Base.{
  Bool-cases, Option-cases, lt-cases, ◌≤◌, refl, ne→==, ◌⊎◌, eq-cases, ==_refl, ℕ, ◌≡◌, ◌≢◌, true,
  false, Option, none, some, arith, inl, inr,
}
use rt_async.Base.Outcome.{done}
use rt_async.External.{VecStack}
use rt_async.Bitmap.Highest.{IsHighest, highest_lem}
use rt_async.Priority
use rt_async.Task.{Task, task_poll}
use rt_async.Task.State
use rt_async.Task.State.Flags.{spawned, spawn_lem}
use rt_async.Kernel.{Spawner, storage_spawn, join_poll, pend}
use rt_async.Kernel.Dispatch.{should_pend, pend_if_higher}
use rt_async.Kernel.Invariant.{Inv}
use rt_async.Kernel.Link.{pend-Inv}
use rt_async.Kernel.Frame.{TaskAlive, TaskAlive-of_Inv, set_task-Inv}
use rt_async.Base.Bits.{test_bit-le}

module _ {Out : Type 0} where
  -- A task starts if it was not spawned: its result and its waker are reset, its future is written,
  -- and its token is returned. A task that is spawned keeps every field but the byte of its flags,
  -- and there is no token.
  abbrev pub Started : Spawner Out → ℕ → Spawner Out → Option ℕ → Type 0
  Started s t s' token =
      ((spawned (s.tasks t).state ≡ 0)
        × (token ≡ some t)
        × ((s.tasks t).future ≡ false)
        × ((s'.tasks t).poll_fn ≡ some task_poll)
        × ((s'.tasks t).future ≡ true)
        × ((s'.tasks t).cell ≡ 0)
        × ((s'.tasks t).result ≡ none)
        × ((s'.tasks t).waker ≡ none)
        × ((s'.tasks t).executor_ptr ≡ (s.tasks t).executor_ptr))
      ⊎ ((spawned (s.tasks t).state ≡ 1)
          × (token ≡ none)
          × ((s'.tasks t).poll_fn ≡ (s.tasks t).poll_fn)
          × ((s'.tasks t).future ≡ (s.tasks t).future)
          × ((s'.tasks t).cell ≡ (s.tasks t).cell)
          × ((s'.tasks t).result ≡ (s.tasks t).result)
          × ((s'.tasks t).waker ≡ (s.tasks t).waker)
          × ((s'.tasks t).executor_ptr ≡ (s.tasks t).executor_ptr))

  -- `TaskStorage::spawn`, in a state with the invariant, keeps it. It succeeds exactly if the task is not spawned, and
  -- then the future that it writes replaces none that is alive; otherwise it changes only the flags,
  -- which stay up. Afterwards the task is spawned.
  pub storage_spawn_lem :
      (s : Spawner Out) (t : ℕ)
      → Inv s
      → let (s', token) = storage_spawn s t in
        Inv s' × (spawned (s'.tasks t).state ≡ 1) × Started s t s' token
  unfolding storage_spawn
  storage_spawn_lem s t v =
      let flags = spawn_lem (s.tasks t).state in
      let a = TaskAlive-of_Inv v t in
      elim (eq-cases (spawned (s.tasks t).state) 0) [
        | inl fresh ↦
            let first : (State.spawn (s.tasks t).state).1 ≡ true = rw (flags.2, fresh) in
            rw first (
              set_task-Inv s t _ v flags.1 (record {
                live = λ h. (refl, refl);
                dead = λ h. absurd (omega (arith, flags.0));
                polled = λ h e. cc;
                owned = λ e h. ((a.owned e h).0, λ q. cc);
              }),
              rw ==_refl flags.0,
              inl (
                fresh,
                refl,
                a.dead fresh,
                rw ==_refl,
                rw ==_refl,
                rw ==_refl,
                rw ==_refl,
                rw ==_refl,
                rw ==_refl,
              ),
            )
        | inr busy ↦
            let first : (State.spawn (s.tasks t).state).1 ≡ false =
              rw (flags.2, ne→== (spawned (s.tasks t).state) 0 busy) in
            rw first (
              let up : spawned (s.tasks t).state ≡ 1 =
                omega (arith, test_bit-le (s.tasks t).state 0) in
              (
                set_task-Inv s t _ v flags.1 (record {
                  live = λ h. a.live up;
                  dead = λ h. absurd (omega (arith, flags.0));
                  polled = λ h. a.polled (omega (arith, flags.1));
                  owned = a.owned;
                }),
                rw ==_refl flags.0,
                inr (
                  up,
                  refl,
                  rw ==_refl,
                  rw ==_refl,
                  rw ==_refl,
                  rw ==_refl,
                  rw ==_refl,
                  rw ==_refl,
                ),
              ))
      ]

  -- `JoinHandle::poll`, in a state with the invariant, keeps it. It takes the result if there is one, which is then gone;
  -- otherwise it leaves the caller's waker with the task.
  pub join_poll_lem :
      (s : Spawner Out) (t cx : ℕ)
      → Inv s
      → let (s', answer) = join_poll s t cx in
        Inv s'
        × (answer ≡ (s.tasks t).result)
        × ((s'.tasks t).result ≡ none)
        × (((answer ≡ none) × ((s'.tasks t).waker ≡ some cx)) ⊎ (answer ≢ none))
  unfolding join_poll
  join_poll_lem s t cx v = split (s.tasks t).result refl
    where
      keep :
          (task : Task Out)
          → task.state ≡ (s.tasks t).state
          → task.poll_fn ≡ (s.tasks t).poll_fn
          → task.future ≡ (s.tasks t).future
          → task.executor_ptr ≡ (s.tasks t).executor_ptr
          → TaskAlive s.size task
      keep task e₁ e₂ e₃ e₄ =
          let a = TaskAlive-of_Inv v t in
          record {
            live = λ h. ground (arith, a.live, e₁, e₂, e₃);
            dead = λ h. ground (arith, a.dead, e₁, e₃);
            polled = λ h q. a.polled (ground arith) (ground arith);
            owned = λ e h. ground (arith, a.owned e, e₂, e₄);
          }

      split :
          (r : Option Out)
          → (s.tasks t).result ≡ r
          → let (s', answer) = join_poll s t cx in
            Inv s'
            × (answer ≡ (s.tasks t).result)
            × ((s'.tasks t).result ≡ none)
            × (((answer ≡ none) × ((s'.tasks t).waker ≡ some cx)) ⊎ (answer ≢ none))
      split none e =
          rw (e, join_poll)
            (
              set_task-Inv s t _ v refl (keep _ refl refl refl refl),
              refl,
              rw ==_refl e,
              inl (refl, rw ==_refl),
            )
      split (some value) e =
          rw (e, join_poll)
            (
              set_task-Inv s t _ v refl (keep _ refl refl refl refl),
              refl,
              rw ==_refl,
              inr (λ h. cc),
            )

module _ {Out : Type 0} (vec : VecStack ℕ) where
  -- Nothing that is ready is higher than the running priority.
  abbrev pub NoneHigher : Spawner Out → Type 0
  NoneHigher s =
      (p : ℕ) → IsHighest s.bitmap p → (q : ℕ) × (vec.last s.prio_stack ≡ some q) × (q ≤ p)

  pub IsHighest-unique :
      (s : Spawner Out) (p q : ℕ) → IsHighest s.bitmap p → IsHighest s.bitmap q → p ≡ q
  IsHighest-unique s p q h k = elim (lt-cases p q) [
    | inl below ↦ absurd (omega (arith, k.least p below, h.on))
    | inr above ↦ elim (lt-cases q p) [
      | inl below ↦ absurd (omega (arith, h.least q below, k.on))
      | inr over ↦ omega arith
    ]
  ]

  -- The check at the end of `Spawner::spawn` raises the interrupt unless nothing that is ready is
  -- higher than the running priority.
  pub pend_if_higher_lem :
      (s : Spawner Out)
      → Inv s
      → (s' : Spawner Out) × (pend_if_higher vec s ≡ done s')
        × Inv s'
        × (((s'.pend_marker ≡ true) × (s'.msip ≡ true)) ⊎ NoneHigher s')
  unfolding pend_if_higher should_pend pend Priority.is_higher_than Priority.new
  pend_if_higher_lem s v = elim (highest_lem s.bitmap v.visible.valid) [
    | inl (e, z) ↦ (s, rw e, v, inr (λ p h. absurd (omega (arith, z p, h.on))))
    | inr (p, e, h) ↦ elim (Bool-cases (should_pend vec s p)) [
      | inl up ↦ (pend s, rw (e, up), pend-Inv s v, inl (refl, refl))
      | inr down ↦ (s, rw (e, down), v, inr (λ r k. rw (IsHighest-unique s r p k h) (above p down)))
    ]
  ]
    where
      above :
          (p : ℕ)
          → should_pend vec s p ≡ false
          → (q : ℕ) × (vec.last s.prio_stack ≡ some q) × (q ≤ p)
      above p down = elim (Option-cases (vec.last s.prio_stack)) [
        | inl e ↦ absurd (ground (arith, e, down))
        | inr (q, e) ↦ (q, e, ground (arith, e, down))
      ]
