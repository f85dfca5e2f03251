-- ===== src/Kernel/Respawn.antt =====
-- `TaskStorage::spawn` and `Spawner::spawn` on a task that has finished while it was still linked.
use rt_async.Base.{
  refl, ==_refl, lt→ltb, ℕ, ◌<◌, ◌≤◌, ◌≡◌, ◌≢◌, ◌∷◌, sym, true, false, none, some, arith, List,
}
use rt_async.Base.Outcome.{done}
use rt_async.External.{IntrusiveList, VecStack}
use rt_async.Task.State
use rt_async.Task.State.Flags.{spawned, run_queued, spawn_lem, run_enqueue_lem, run_dequeue_lem}
use rt_async.Base.Bits.{test_bit-le}
use rt_async.Kernel.Invariant.{Inv, occurs}
use rt_async.Kernel.{take_next, Spawner, storage_spawn, enqueue, begin_enqueue, wake_task}
use rt_async.Kernel.Dispatch.{spawn}
use rt_async.Kernel.Link.{after_skip}
use rt_async.Kernel.Take.{after_take, here_once}

module _ {Out : Type 0} (run_list : IntrusiveList ℕ) (vec : VecStack ℕ) where
  -- The state after both calls.
  abbrev pub respawned : Spawner Out → ℕ → ℕ → Spawner Out
  respawned s prio t = after_skip (storage_spawn s t).0 prio t

  take_next-at :
      (s : Spawner Out) (e t : ℕ) (rest : List ℕ)
      → s.run_queue e ≡ t ∷ rest
      → take_next run_list s e ≡ done (after_take s e t rest, some t)
  unfolding take_next
  take_next-at s e t rest q = rw (q, take_next, run_list.pop_front-cons t rest)

  -- In a state with the invariant, a task that has finished, has no executor and still stands in the
  -- queue of some priority, from a wake during its last poll, is spawned again at another existing
  -- priority. Both calls succeed, but the task still stands once in its old queue and not in that of the
  -- new priority, and it has no executor, so that its waker does nothing. After the run loop of the old
  -- priority has taken it, it is spawned, stands in no queue, and its waker still does nothing.
  pub respawn_lost :
      (s : Spawner Out) (old prio t : ℕ)
      → Inv s
      → spawned (s.tasks t).state ≡ 0
      → (s.tasks t).executor_ptr ≡ none
      → 0 < occurs t (s.run_queue old)
      → prio ≢ old
      → prio < s.size
      → let s' = respawned s prio t in
        ((storage_spawn s t).1 ≡ some t)
        × (spawn run_list vec (storage_spawn s t).0 prio t ≡ done s')
        × (spawned (s'.tasks t).state ≡ 1)
        × ((s'.tasks t).executor_ptr ≡ none)
        × (occurs t (s'.run_queue old) ≡ 1)
        × (occurs t (s'.run_queue prio) ≡ 0)
        × (wake_task run_list s' t ≡ done s')
        × ((rest : List ℕ)
            → s'.run_queue old ≡ t ∷ rest
            → let s'' = after_take s' old t rest in
              (take_next run_list s' old ≡ done (s'', some t))
              × (spawned (s''.tasks t).state ≡ 1)
              × ((p : ℕ) → occurs t (s''.run_queue p) ≡ 0)
              × (wake_task run_list s'' t ≡ done s''))
  unfolding storage_spawn spawn enqueue begin_enqueue wake_task State.spawn State.run_enqueue
  respawn_lost s old prio t v fresh off linked other inside =
      let few : run_queued (s.tasks t).state ≤ 1 = test_bit-le (s.tasks t).state 1 in
      let once = v.linked.once t old prio (λ e. other (sym e)) in
      let on : run_queued (s.tasks t).state ≡ 1 = omega (arith, few, once, linked) in
      let first : (State.spawn (s.tasks t).state).1 ≡ true =
        rw ((spawn_lem (s.tasks t).state).2, fresh) in
      let again : (State.run_enqueue (State.spawn (s.tasks t).state).0).1 ≡ false = rw (
        (run_enqueue_lem (State.spawn (s.tasks t).state).0).2,
        (spawn_lem (s.tasks t).state).1,
        on,
      ) in
      let up : spawned (State.run_enqueue (State.spawn (s.tasks t).state).0).0 ≡ 1 = omega (
        arith,
        (spawn_lem (s.tasks t).state).0,
        (run_enqueue_lem (State.spawn (s.tasks t).state).0).1,
      ) in
      rw (first, lt→ltb prio s.size inside)
        (
          refl,
          rw (==_refl t) (rw again refl),
          rw (==_refl t) up,
          ground (arith, off),
          omega (arith, few, once, linked),
          omega (arith, few, once, linked),
          ground (arith, off),
          λ rest q. (
            take_next-at _ old t rest q,
            ground (
              arith,
              up,
              run_dequeue_lem (State.run_enqueue (State.spawn (s.tasks t).state).0).0,
            ),
            λ p. here_once s old t rest q v p,
            ground (arith, off),
          ),
        )
