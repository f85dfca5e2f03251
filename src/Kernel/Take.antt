-- ===== src/Kernel/Take.antt =====
-- The critical section of `Executor::run` in executor.rs: the next task, or the bit is cleared.
use rt_async.Base.{
  ne→==, refl, subst, ◌≤◌, ◌∙◌, ◌⊎◌, update, suc, eq-cases, ◌==◌, ℕ, ◌<◌, ◌≡◌, ◌≢◌, none, some,
  arith, inl, inr, if◌then◌else◌, List, [], ◌∷◌,
}
use rt_async.Base.Outcome.{done}
use rt_async.External.{IntrusiveList}
use rt_async.Bitmap.{PriorityBitmap}
use rt_async.Bitmap.Digits.{digit, clear_lem}
use rt_async.Task.State
use rt_async.Task.State.Flags.{run_queued, run_dequeue_lem}
use rt_async.Kernel.{Spawner, bm_clear, take_next}
use rt_async.Kernel.Invariant.{occurs, Inv, Linked}
use rt_async.Base.Bits.{test_bit-le}

module _ {Out : Type 0} where
  -- The state after the first task of the queue of `e` is unlinked.
  abbrev pub after_take : Spawner Out → ℕ → ℕ → List ℕ → Spawner Out
  after_take s e t rest = record s {
    tasks = update s.tasks t (record (s.tasks t) { state = State.run_dequeue (s.tasks t).state });
    run_queue = update s.run_queue e rest;
  }

  module _ (s : Spawner Out) (e t : ℕ) (rest : List ℕ) (q : s.run_queue e ≡ t ∷ rest)
      (v : Inv s) where
    -- The task that is taken stood in no other place.
    pub here_once : (p : ℕ) → occurs t (update s.run_queue e rest p) ≡ 0
    here_once p = elim (eq-cases e p) [
      | inl same ↦
          ground (arith, v.linked.once t e (suc e) (omega arith), test_bit-le (s.tasks t).state 1)
      | inr other ↦ ground (arith, v.linked.once t e p other, test_bit-le (s.tasks t).state 1)
    ]

    was_linked : run_queued (s.tasks t).state ≡ 1
    was_linked =
        ground (arith, v.linked.once t e (suc e) (omega arith), test_bit-le (s.tasks t).state 1)

    not_linking : s.linking t ≡ 0
    not_linking =
        ground (arith, v.linked.once t e (suc e) (omega arith), test_bit-le (s.tasks t).state 1)

    fewer : (u p : ℕ) → occurs u (update s.run_queue e rest p) ≤ occurs u (s.run_queue p)
    fewer u p = ground arith

    take-Linked : Linked (after_take s e t rest)
    take-Linked = record {
      once = λ u p r ne. elim (eq-cases t u) [
        | inl same ↦ rw (← same) (omega (arith, here_once p, here_once r, not_linking))
        | inr other ↦
            rw (ne→== t u other) (omega (arith, fewer u p, fewer u r, v.linked.once u p r ne))
      ];
      somewhere = λ u h free. elim (eq-cases t u) [
        | inl same ↦ absurd (ground (arith, run_dequeue_lem (s.tasks t).state))
        | inr other ↦
            let (p, found) = v.linked.somewhere u (rw (ne→== t u other) at h) free in
            (p, ground arith)
      ];
    }

    take-Inv : Inv (after_take s e t rest)
    take-Inv = record {
      visible = record {
        ready = v.visible.ready;
        small = v.visible.small;
        valid = v.visible.valid;
        groups = v.visible.groups;
        inside = v.visible.inside;
        shown = λ p h. ground (arith, v.visible.shown p);
        rising = v.visible.rising;
      };
      linked = take-Linked;
      alive = record {
        live = λ u h. ground (arith, run_dequeue_lem (s.tasks t).state, v.alive.live u);
        dead = λ u h. ground (arith, run_dequeue_lem (s.tasks t).state, v.alive.dead u);
        polled = λ u h. ground (arith, run_dequeue_lem (s.tasks t).state, v.alive.polled u);
        owned = λ u p h. ground (arith, v.alive.owned u p);
      };
    }

  module _ (run_list : IntrusiveList ℕ) where
    -- `take_next` unlinks the first task of the queue, which has a poll function.
    abbrev pub Takes : Spawner Out → ℕ → Type 0
    Takes s e =
        (t : ℕ) × (rest : List ℕ) × (s.run_queue e ≡ t ∷ rest)
        × (take_next run_list s e ≡ done (after_take s e t rest, some t))
        × ((s.tasks t).poll_fn ≢ none)
        × Inv (after_take s e t rest)

    -- `take_next` finds the queue empty and clears the executor's bit, and no other.
    abbrev pub Drained : Spawner Out → ℕ → Type 0
    Drained s e =
        (bm : PriorityBitmap) × (s.run_queue e ≡ [])
        × (take_next run_list s e ≡ done (record s { bitmap = bm }, none))
        × ((q : ℕ) → digit bm q ≡ (if e == q then 0 else digit s.bitmap q))
        × Inv (record s { bitmap = bm })

    -- In a state with the invariant, on an existing priority, the run loop's critical section never
    -- panics and keeps the invariant: it takes the oldest task of the queue, or it finds the queue
    -- empty and clears exactly this executor's bit.
    pub take_next_lem : (s : Spawner Out) (e : ℕ) → Inv s → e < s.size → Takes s e ⊎ Drained s e
    unfolding take_next bm_clear
    take_next_lem s e v he = split (s.run_queue e) refl
      where
        split : (queue : List ℕ) → s.run_queue e ≡ queue → Takes s e ⊎ Drained s e
        split (t ∷ rest) q = inl (
          t,
          rest,
          q,
          rw (q, take_next, run_list.pop_front-cons t rest),
          v.alive.polled t (was_linked s e t rest q v),
          take-Inv s e t rest q v,
        )
        split [] q =
            let vis = v.visible in
            let (bm, eq, ok, size, d) =
              clear_lem s.bitmap e vis.valid (omega (arith, vis.groups, vis.small)) in
            inr (
              bm,
              q,
              rw (q, take_next, run_list.pop_front-nil, vis.ready, eq),
              d,
              record {
                visible = record {
                  ready = vis.ready;
                  small = vis.small;
                  valid = ok;
                  groups = size ∙ vis.groups;
                  inside = λ p h. ground (arith, d p, vis.inside p);
                  shown = λ p h. elim (eq-cases e p) [
                    | inl same ↦ absurd (h (subst (λ x. s.run_queue x ≡ []) same q))
                    | inr other ↦ ground (arith, d p, vis.shown p h)
                  ];
                  rising = vis.rising;
                };
                linked = record { once = v.linked.once; somewhere = v.linked.somewhere };
                alive = record {
                  live = v.alive.live;
                  dead = v.alive.dead;
                  polled = v.alive.polled;
                  owned = v.alive.owned;
                };
              },
            )
