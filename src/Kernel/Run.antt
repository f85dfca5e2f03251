-- ===== src/Kernel/Run.antt =====
-- `Executor::run` of executor.rs as a whole: it ends, with its queue empty and its bit cleared.
use rt_async.Base.{
  ◌⊎◌, ◌==◌, if◌then◌else◌, lt→ltb, refl, ◌∙◌, Option-cases, ==_refl, ℕ, zero, suc, ◌<◌, ◌≡◌, ◌≢◌,
  Option, none, some, arith, inl, inr, List, [], ◌∷◌,
}
use rt_async.Base.Outcome.{Outcome, done}
use rt_async.External.{IntrusiveList}
use rt_async.Bitmap.Digits.{digit}
use rt_async.Task.{Task, task_poll, poll_exited}
use rt_async.Kernel.{take_next, Spawner, poll, run, run_executor}
use rt_async.Kernel.Invariant.{Inv}
use rt_async.Kernel.Take.{after_take, take_next_lem}
use rt_async.Kernel.Wake.{finish_poll-Inv}

abbrev pub Future : Type 0 → Type 0
Future Out = ℕ → Spawner Out → Outcome (Spawner Out × Option Out)

-- A measure of what is left to do, on the tasks and the queues.
abbrev pub Work : Type 0 → Type 0
Work Out = (ℕ → Task Out) → (ℕ → List ℕ) → ℕ

module _ {Out : Type 0} where
  -- A future, with the interrupts that preempt it, makes calls that do not panic, keep the invariant
  -- and have put the priority stack back when it answers.
  abbrev pub Behaves : Future Out → Type 0
  Behaves future =
      (t : ℕ) (s : Spawner Out)
      → Inv s
      → (s' : Spawner Out) × (answer : Option Out) × (future t s ≡ done (s', answer))
        × Inv s'
        × (s'.size ≡ s.size)
        × (s'.prio_stack ≡ s.prio_stack)

  abbrev pub amount : Work Out → Spawner Out → ℕ
  amount work s = work s.tasks s.run_queue

  module _ (run_list : IntrusiveList ℕ) (future : Future Out) (behaves : Behaves future) where
    -- A poll of a task that has a poll function does not panic and keeps the invariant.
    pub poll-Inv :
        (s : Spawner Out) (t : ℕ)
        → Inv s
        → (s.tasks t).poll_fn ≢ none
        → (s' : Spawner Out) × (poll run_list future s t ≡ done s')
          × Inv s'
          × (s'.size ≡ s.size)
          × (s'.prio_stack ≡ s.prio_stack)
    unfolding poll
    poll-Inv s t v fn = elim (Option-cases (s.tasks t).poll_fn) [
      | inl e ↦ absurd (fn e)
      | inr (task_poll, e) ↦
          let (s', answer, eq, ok, size, stack) = behaves t s v in
          let (s'', eq', ok', size', stack') = finish_poll-Inv run_list s' t answer ok in
          (s'', rw (e, poll, eq) eq', ok', size' ∙ size, stack' ∙ stack)
      | inr (poll_exited, e) ↦ (s, rw (e, poll), v, refl, refl)
    ]

    run_more :
        (fuel e t : ℕ) (s s' s'' : Spawner Out)
        → take_next run_list s e ≡ done (s', some t)
        → poll run_list future s' t ≡ done s''
        → run run_list future (suc fuel) e s ≡ run run_list future fuel e s''
    unfolding run
    run_more fuel e t s s' s'' eq eq' = rw (eq, run) (rw (eq', run))

    run_stop :
        (fuel e : ℕ) (s s' : Spawner Out)
        → take_next run_list s e ≡ done (s', none)
        → run run_list future (suc fuel) e s ≡ some (done s')
    unfolding run
    run_stop fuel e s s' eq = rw (eq, run)

    -- What the run loop of `e` has done: the polls have left less work, or there was none to poll and
    -- the bit of `e` is cleared.
    abbrev pub Progress : Work Out → ℕ → Spawner Out → Spawner Out → Type 0
    Progress work e s s' =
        (amount work s' < amount work s)
        ⊎ ((amount work s' ≡ amount work s)
            × ((q : ℕ) → digit s'.bitmap q ≡ (if e == q then 0 else digit s.bitmap q)))

    -- With `size` priorities, each poll of a task taken from the queue of `e` leaves less work.
    abbrev pub Lessens : Work Out → ℕ → ℕ → Type 0
    Lessens work size e =
        (s s' : Spawner Out) (t : ℕ) (rest : List ℕ)
        → s.size ≡ size
        → Inv s
        → s.run_queue e ≡ t ∷ rest
        → poll run_list future (after_take s e t rest) t ≡ done s'
        → amount work s' < amount work s

    pub loop_ends :
        (work : Work Out) (size e : ℕ)
        → Lessens work size e
        → (fuel : ℕ) (s : Spawner Out) → s.size ≡ size
        → amount work s < fuel
        → Inv s
        → e < s.size
        → (s' : Spawner Out) × (run run_list future fuel e s ≡ some (done s'))
          × Inv s'
          × (s'.run_queue e ≡ [])
          × (digit s'.bitmap e ≡ 0)
          × (s'.prio_stack ≡ s.prio_stack)
          × (s'.size ≡ s.size)
          × Progress work e s s'
    loop_ends work size e less zero s same h v inside = absurd (omega arith)
    loop_ends work size e less (suc fuel) s same h v inside =
        elim (take_next_lem run_list s e v inside) [
          | inl (t, rest, q, eq, fn, ok) ↦
              let (s₁, eq₁, ok₁, size₁, stack₁) =
                poll-Inv (after_take s e t rest) t ok (rw ==_refl fn) in
              let below = less s s₁ t rest same v q eq₁ in
              let (s', eq', ok', empty, clear, stack', size', how) =
                loop_ends work size e less fuel s₁ (size₁ ∙ same) (omega (arith, below)) ok₁
                  (omega (arith, size₁)) in
              (
                s',
                run_more fuel e t s _ s₁ eq eq₁ ∙ eq',
                ok',
                empty,
                clear,
                stack' ∙ stack₁,
                size' ∙ size₁,
                inl (elim how [
                  | inl more ↦ omega (arith, more)
                  | inr (equal, _) ↦ omega (arith, equal)
                ]),
              )
          | inr (bm, q, eq, d, ok) ↦ (
            record s { bitmap = bm },
            run_stop fuel e s _ eq,
            ok,
            q,
            ground (arith, d e),
            refl,
            refl,
            inr (refl, d),
          )
        ]

    -- In a state with the invariant, on an existing priority `e`, with a future that behaves: if each
    -- poll of a task taken from the queue of `e` leaves less work, by some measure of the tasks and
    -- queues, then with more fuel than the work the run loop ends and does not panic: the queue of `e` is
    -- empty, its bit is cleared, the invariant holds and the priority stack is as before.
    pub run_ends :
        (work : Work Out) (e : ℕ) (s : Spawner Out)
        → Lessens work s.size e
        → (fuel : ℕ) → amount work s < fuel
        → Inv s
        → e < s.size
        → (s' : Spawner Out) × (run_executor run_list future fuel e s ≡ some (done s'))
          × Inv s'
          × (s'.run_queue e ≡ [])
          × (digit s'.bitmap e ≡ 0)
          × (s'.prio_stack ≡ s.prio_stack)
    unfolding run_executor
    run_ends work e s less fuel h v inside =
        let (s', eq, ok, empty, clear, stack, _, _) =
          loop_ends work s.size e less fuel s refl h v inside in
        (s', rw (lt→ltb e s.size inside) eq, ok, empty, clear, stack)
