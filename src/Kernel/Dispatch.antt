-- ===== src/Kernel/Dispatch.antt =====
-- The scheduling half of modules/executor/src/spawner.rs: `Spawner::spawn`, `try_preempt` and
-- `complete_executor`.
use rt_async.Kernel.{Spawner, pend, enqueue}
use rt_async.Base.{ℕ, Bool, true, Option, none, some, ltb, if◌then◌else◌}
use rt_async.Base.Outcome.{Outcome, done, panic, ◌>>=◌}
use rt_async.Bitmap
use rt_async.External.{IntrusiveList, VecStack}
use rt_async.Priority

module _ {Out : Type 0} (vec : VecStack ℕ) where
  -- The critical section of `Spawner::spawn`: is an interrupt needed?
  unfoldable pub should_pend : Spawner Out → ℕ → Bool
  should_pend s highest_prio = elim (vec.last s.prio_stack) [
    | none ↦ true
    | some p ↦ Priority.is_higher_than (Priority.new highest_prio) (Priority.new p)
  ]

  unfoldable pub pend_if_higher : Spawner Out → Outcome (Spawner Out)
  pend_if_higher s = do
    highest_prio ← Bitmap.highest s.bitmap
    done (elim highest_prio [ none ↦ s | some p ↦ if should_pend s p then pend s else s ])

  -- `stack.push(highest).ok()?` and the token
  unfoldable pub push_prio : Spawner Out → ℕ → Spawner Out × Option ℕ
  push_prio s highest = elim (vec.push s.size s.prio_stack highest) [
    | none ↦ (s, none)
    | some stack ↦ (record s { prio_stack = stack }, some highest)
  ]

  -- `Spawner::try_preempt`; the token is the priority to run.
  unfoldable pub try_preempt : Spawner Out → Outcome (Spawner Out × Option ℕ)
  try_preempt s = do
    found ← Bitmap.highest s.bitmap
    done (elim found [
      | none ↦ (s, none)
      | some highest ↦ elim (vec.last s.prio_stack) [
        | none ↦ push_prio s highest
        | some p ↦
            if Priority.is_lower_than (Priority.new p) (Priority.new highest)
            then push_prio s highest
            else (s, none)
      ]
    ])

  -- `Spawner::complete_executor`
  unfoldable pub complete_executor : Spawner Out → Spawner Out
  complete_executor s = elim (vec.pop s.prio_stack) [
    | none ↦ s
    | some (p, stack) ↦ record s { prio_stack = stack }
  ]

module _ {Out : Type 0} (run_list : IntrusiveList ℕ) (vec : VecStack ℕ) where
  -- `Spawner::spawn`; the join handle is the task's `TaskRef`.
  unfoldable pub spawn : Spawner Out → ℕ → ℕ → Outcome (Spawner Out)
  spawn s prio t =
      if ltb prio s.size
      then (do
        (s', linked) ← enqueue run_list s prio t
        if linked then pend_if_higher vec s' else done s')
      else panic
