-- ===== src/Scheduler.antt =====
-- The handler of the software interrupt that modules/executor-macro/src/lib.rs generates: the hook of
-- the application, and the loop of the scheduler. `none` stands for fuel that runs out; interrupts are
-- enabled during `run`, and what they do is part of the future (`future` of `run_executor`).
pub mod Ends
mod Tests
use rt_async.Base.{ℕ, zero, suc, Bool, true, false, Option, none, some}
use rt_async.Base.Outcome.{Outcome, done, panic, ◌>>=◌}
use rt_async.External.{IntrusiveList, VecStack}
use rt_async.Kernel.{Spawner, clear_pend, run_executor}
use rt_async.Kernel.Dispatch.{try_preempt, complete_executor}

module _ {Out : Type 0} (run_list : IntrusiveList ℕ) (vec : VecStack ℕ)
    (future : ℕ → Spawner Out → Outcome (Spawner Out × Option Out)) where
  -- `while let Some(rt) = spawner.try_preempt()`
  unfoldable pub schedule : ℕ → ℕ → Spawner Out → Option (Outcome (Spawner Out))
  schedule run_fuel zero s = none
  schedule run_fuel (suc fuel) s = elim (try_preempt vec s) [
    | panic ↦ some panic
    | done (s₁, token) ↦ elim token [
      | none ↦ some (done s₁)
      | some prio ↦ elim (run_executor run_list future run_fuel prio s₁) [
        | none ↦ none
        | some result ↦ elim result [
          | panic ↦ some panic
          | done s₂ ↦ schedule run_fuel fuel (complete_executor vec s₂)
        ]
      ]
    ]
  ]

  -- `MachineSoft`: `hook` is `__Inner_MachineSoft`.
  unfoldable pub machine_soft :
      (Spawner Out → Outcome (Spawner Out)) → ℕ → ℕ → Spawner Out → Option (Outcome (Spawner Out))
  machine_soft hook run_fuel fuel s = elim (hook s) [
    | panic ↦ some panic
    | done s₁ ↦
        let (s₂, is_system) = clear_pend s₁ in
        elim is_system [ true ↦ schedule run_fuel fuel s₂ | false ↦ some (done s₂) ]
  ]
