-- ===== src/Scheduler/Ends.antt =====
-- The scheduler loop of executor-macro/src/lib.rs ends, with nothing that is ready above the running
-- priority.
use rt_async.Base.{
  Bool-cases, ◌%◌, ◌/◌, ℕ, zero, suc, ◌+◌, ◌*◌, ◌≤◌, ◌<◌, ◌≡◌, ◌⊎◌, inl, inr, true, false, Option,
  none, some, List, ◌∷◌, ◌==◌, if◌then◌else◌, refl, arith, ◌∙◌, sym, ap, subst, eq-cases, lt→ltb,
}
use rt_async.Base.Bits.{test_bit-le}
use rt_async.Base.Outcome.{Outcome, done}
use rt_async.External.{IntrusiveList, VecStack}
use mathlib.Core.Path.{ap₂}
use native.Mathlib.Nat.{mul-le-mul_right, suc-mul}
use rt_async.Bitmap.{PriorityBitmap}
use rt_async.Bitmap.Digits.{word, digit}
use rt_async.Bitmap.Highest.{IsHighest, NoneSet}
use rt_async.Kernel.{Spawner, clear_pend, run_executor, run}
use rt_async.Kernel.Dispatch.{try_preempt, complete_executor}
use rt_async.Kernel.Invariant.{Inv}
use rt_async.Kernel.Preempt.{with_stack, try_preempt_lem, complete_executor-Inv}
use rt_async.Kernel.Run.{Future, Behaves, Work, amount, Lessens, Progress, loop_ends}
use rt_async.Kernel.Spawns.{NoneHigher, IsHighest-unique}
use rt_async.Kernel.Steps.{clear_pend-Inv}
use rt_async.Scheduler.{schedule, machine_soft}

-- How many of the first `n` priorities are set.
abbrev pub set_bits : PriorityBitmap → ℕ → ℕ
set_bits bm zero = 0
set_bits bm (suc n) = set_bits bm n + digit bm n

digit-le : (bm : PriorityBitmap) (p : ℕ) → digit bm p ≤ 1
digit-le bm p = test_bit-le (word bm (p / 64)) (p % 64)

set_bits-le : (bm : PriorityBitmap) (n : ℕ) → set_bits bm n ≤ n
set_bits-le bm zero = omega arith
set_bits-le bm (suc n) = omega (arith, set_bits-le bm n, digit-le bm n)

module _ (bm bm' : PriorityBitmap) (e : ℕ)
    (cleared : (q : ℕ) → digit bm' q ≡ (if e == q then 0 else digit bm q)) where
  set_bits-above : (n : ℕ) → n ≤ e → set_bits bm' n ≡ set_bits bm n
  set_bits-above zero h = refl
  set_bits-above (suc n) h = ground (arith, set_bits-above n, cleared n, h)

  -- Clearing a set digit leaves one less.
  set_bits-cleared : (n : ℕ) → e < n → digit bm e ≡ 1 → set_bits bm' n + 1 ≡ set_bits bm n
  set_bits-cleared zero h on = absurd (omega arith)
  set_bits-cleared (suc n) h on = elim (eq-cases e n) [
    | inl same ↦ ground (arith, set_bits-above n, cleared n, same, ap (λ x. digit bm x) same, on)
    | inr other ↦ ground (arith, set_bits-cleared n, cleared n, other, on, h)
  ]

module _ {Out : Type 0} (run_list : IntrusiveList ℕ) (vec : VecStack ℕ) (future : Future Out)
    (behaves : Behaves future) (work : Work Out) (size : ℕ)
    (less : (e : ℕ) → e < size → Lessens run_list future behaves work size e) where
  -- What is left for the loop: the work of the polls first, then the bits that are set.
  abbrev pub rank : Spawner Out → ℕ
  rank s = amount work s * (s.size + 1) + set_bits s.bitmap s.size

  rank-lt :
      (s s' : Spawner Out) (e : ℕ)
      → s'.size ≡ s.size
      → e < s.size
      → digit s.bitmap e ≡ 1
      → Progress run_list future behaves work e s s'
      → rank s' < rank s
  rank-lt s s' e same inside on (inl fewer) =
      let scaled = mul-le-mul_right (s.size + 1) fewer in
      let split = suc-mul (amount work s') (s.size + 1) in
      let size : amount work s' * (s'.size + 1) ≡ amount work s' * (s.size + 1) =
        ap (λ n. amount work s' * (n + 1)) same in
      omega (arith, scaled, split, size, set_bits-le s'.bitmap s'.size)
  rank-lt s s' e same inside on (inr (equal, cleared)) =
      let fewer = set_bits-cleared s.bitmap s'.bitmap e cleared s.size inside on in
      let bits : set_bits s'.bitmap s'.size ≡ set_bits s'.bitmap s.size =
        ap (set_bits s'.bitmap) same in
      let left : amount work s' * (s'.size + 1) ≡ amount work s * (s.size + 1) =
        ap₂ (λ a n. a * (n + 1)) equal same in
      omega (arith, fewer, bits, left)

  completed_stack :
      (s : Spawner Out) (p : ℕ) (ps : List ℕ)
      → s.prio_stack ≡ p ∷ ps
      → complete_executor vec s ≡ with_stack s ps
  unfolding complete_executor
  completed_stack s p ps e = simp (complete_executor, e, vec.pop-cons)

  schedule_stop :
      (run_fuel fuel : ℕ) (s : Spawner Out)
      → try_preempt vec s ≡ done (s, none)
      → schedule run_list vec future run_fuel (suc fuel) s ≡ some (done s)
  unfolding schedule
  schedule_stop run_fuel fuel s e = rw (e, schedule) refl

  schedule_more :
      (run_fuel fuel p : ℕ) (s s₁ s₂ : Spawner Out)
      → try_preempt vec s ≡ done (s₁, some p)
      → run_executor run_list future run_fuel p s₁ ≡ some (done s₂)
      → schedule run_list vec future run_fuel (suc fuel) s
        ≡ schedule run_list vec future run_fuel fuel (complete_executor vec s₂)
  unfolding schedule
  schedule_more run_fuel fuel p s s₁ s₂ e e' = rw (e, schedule) (rw (e', schedule) refl)

  run_at :
      (run_fuel p : ℕ) (s s' : Spawner Out)
      → p < s.size
      → run run_list future run_fuel p s ≡ some (done s')
      → run_executor run_list future run_fuel p s ≡ some (done s')
  unfolding run_executor
  run_at run_fuel p s s' inside e = rw (lt→ltb p s.size inside) e

  stays-NoneHigher :
      (s : Spawner Out)
      → NoneSet s.bitmap
        ⊎ ((p : ℕ) × IsHighest s.bitmap p × (q : ℕ) × (vec.last s.prio_stack ≡ some q) × (q ≤ p))
      → NoneHigher vec s
  stays-NoneHigher s (inl z) p h = absurd (omega (arith, z p, h.on))
  stays-NoneHigher s (inr (p, h, q, top, above)) r k =
      (q, top, omega (arith, IsHighest-unique vec s p r h k))

  -- What the loop has done when it ends.
  abbrev pub Settled : Spawner Out → Option (Outcome (Spawner Out)) → Type 0
  Settled s result =
      (s' : Spawner Out) × (result ≡ some (done s'))
      × Inv s'
      × (s'.prio_stack ≡ s.prio_stack)
      × NoneHigher vec s'

  -- In a state with the invariant, with a future that behaves: if each poll of a task taken from a
  -- queue of an existing priority leaves less work, by some measure of the tasks and queues, then with more fuel for the runs than the
  -- work, and more for the loop than the rank of the state, the scheduler loop ends and does not panic:
  -- the invariant holds, the priority stack is as before, and nothing that is ready is higher than the
  -- running priority.
  pub schedule_ends :
      (run_fuel fuel : ℕ) (s : Spawner Out)
      → s.size ≡ size
      → Inv s
      → amount work s < run_fuel
      → rank s < fuel
      → Settled s (schedule run_list vec future run_fuel fuel s)
  schedule_ends run_fuel zero s same v h k = absurd (omega arith)
  schedule_ends run_fuel (suc fuel) s same v h k = elim (try_preempt_lem vec s v) [
    | inr (why, eq) ↦ (s, schedule_stop run_fuel fuel s eq, v, refl, stays-NoneHigher s why)
    | inl (p, (high, below, eq, ok)) ↦
        let inside = v.visible.inside p high.on in
        let s₁ = with_stack s (p ∷ s.prio_stack) in
        let (s₂, eq₂, ok₂, _, _, stack₂, size₂, how) =
          loop_ends run_list future behaves work size p (less p (omega arith)) run_fuel s₁ same h ok
            inside in
        let s₃ = complete_executor vec s₂ in
        let popped = completed_stack s₂ p s.prio_stack stack₂ in
        let lower : rank s₃ < rank s =
          subst (λ x. rank x < rank s) (sym popped) (rank-lt s₁ s₂ p size₂ inside high.on how) in
        let less_left : amount work s₃ < run_fuel =
          subst (λ x. amount work x < run_fuel) (sym popped)
            (elim how [
              | inl fewer ↦ omega (arith, fewer)
              | inr (equal, _) ↦ omega (arith, equal)
            ]) in
        let (s', eq', ok', stack', quiet) =
          schedule_ends run_fuel fuel s₃ (ap (λ x. x.size) popped ∙ size₂ ∙ same)
            (complete_executor-Inv vec s₂ ok₂) less_left (omega (arith, lower)) in
        (
          s',
          schedule_more run_fuel fuel p s s₁ s₂ eq (run_at run_fuel p s₁ s₂ inside eq₂) ∙ eq',
          ok',
          stack' ∙ ap (λ x. x.prio_stack) popped,
          quiet,
        )
  ]

  -- The handler of the software interrupt, after a hook that returned a state with the invariant and
  -- under the conditions of the scheduler loop: if the interrupt was raised by the scheduler, the loop is
  -- run on the state with the marker and the pending bit cleared, and comes to its end; otherwise only
  -- these two are cleared.
  pub machine_soft_ends :
      (hook : Spawner Out → Outcome (Spawner Out)) (run_fuel fuel : ℕ) (s s₁ : Spawner Out)
      → hook s ≡ done s₁
      → s₁.size ≡ size
      → Inv s₁
      → amount work s₁ < run_fuel
      → rank s₁ < fuel
      → ((s₁.pend_marker ≡ true)
          × (machine_soft run_list vec future hook run_fuel fuel s
              ≡ schedule run_list vec future run_fuel fuel
                  (record s₁ { pend_marker = false; msip = false }))
          × Settled s₁ (machine_soft run_list vec future hook run_fuel fuel s))
        ⊎ ((s₁.pend_marker ≡ false)
            × (machine_soft run_list vec future hook run_fuel fuel s
                ≡ some (done (record s₁ { pend_marker = false; msip = false }))))
  unfolding machine_soft clear_pend
  machine_soft_ends hook run_fuel fuel s s₁ e same v h k = elim (Bool-cases s₁.pend_marker) [
    | inr off ↦ inr (off, rw (e, machine_soft) (rw (off, machine_soft) refl))
    | inl on ↦
        let (s', eq, ok, stack, quiet) =
          schedule_ends run_fuel fuel (clear_pend s₁).0 same (clear_pend-Inv s₁ v) h k in
        let run : machine_soft run_list vec future hook run_fuel fuel s
            ≡ schedule run_list vec future run_fuel fuel
                (record s₁ { pend_marker = false; msip = false }) =
          rw (e, machine_soft) (rw (on, machine_soft) refl) in
        inl (on, run, (s', run ∙ eq, ok, stack, quiet))
  ]
