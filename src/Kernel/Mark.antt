-- ===== src/Kernel/Mark.antt =====
-- The two halves of `Executor::enqueue` of executor.rs and `State::run_enqueue` of task/state.rs: the
-- atomic that raises the flag, and the critical section that links the task.
use rt_async.Base.{
  true, ℕ, suc, ◌<◌, ◌≡◌, ◌≢◌, ◌∙◌, inl, inr, none, some, List, [], ◌∷◌, ◌++◌, arith, length, ◌==◌,
  if◌then◌else◌, update, eq-cases, ==_refl, ne→==,
}
use rt_async.Base.Outcome.{done}
use rt_async.Bitmap.{PriorityBitmap}
use rt_async.Bitmap.Digits.{set_lem, IsValid, digit}
use rt_async.Task.State
use rt_async.Task.State.Flags.{run_queued, run_enqueue_lem}
use rt_async.Kernel.{bm_set, begin_enqueue, link, Spawner}
use rt_async.Kernel.Invariant.{Inv, occurs-append, Visible, Linked, Alive}
use rt_async.External.{IntrusiveList}
use rt_async.Base.Bits.{test_bit-le}

module _ {Out : Type 0} (s : Spawner Out) (t : ℕ) where
  -- The state after the flag is raised, and the task has yet to be linked.
  abbrev pub after_mark : Spawner Out
  after_mark = record s {
    tasks =
        update s.tasks t (record (s.tasks t) { state = (State.run_enqueue (s.tasks t).state).0 });
    linking = update s.linking t 1;
  }

  pub mark-Inv :
      Inv s → run_queued (s.tasks t).state ≡ 0 → (s.tasks t).poll_fn ≢ none → Inv after_mark
  mark-Inv v off fn = record {
    visible = record {
      ready = v.visible.ready;
      small = v.visible.small;
      valid = v.visible.valid;
      groups = v.visible.groups;
      inside = v.visible.inside;
      shown = v.visible.shown;
      rising = v.visible.rising;
    };
    linked = record {
      once = λ u p q ne. ground (
        arith,
        run_enqueue_lem (s.tasks t).state,
        v.linked.once u p q ne,
        v.linked.once t p q ne,
      );
      somewhere = λ u h free. elim (eq-cases t u) [
        | inl same ↦ absurd (ground (arith, same, free))
        | inr other ↦
            v.linked.somewhere u (rw (ne→== t u other) at h) (rw (ne→== t u other) at free)
      ];
    };
    alive = record {
      live = λ u h. ground (arith, run_enqueue_lem (s.tasks t).state, v.alive.live u);
      dead = λ u h. ground (arith, run_enqueue_lem (s.tasks t).state, v.alive.dead u);
      polled = λ u h. ground (arith, fn, v.alive.polled u);
      owned = λ u p h. ground (arith, v.alive.owned u p);
    };
  }

  pub begin_enqueue-first :
      run_queued (s.tasks t).state ≡ 0 → begin_enqueue s t ≡ (after_mark, true)
  unfolding begin_enqueue
  begin_enqueue-first off = rw ((run_enqueue_lem (s.tasks t).state).2, off)

module _ {Out : Type 0} (s : Spawner Out) (e t : ℕ) where
  -- The state after the critical section, in any state where the task has yet to be linked.
  abbrev pub after_section : PriorityBitmap → Spawner Out
  after_section bm = record s {
    tasks = update s.tasks t (record (s.tasks t) { executor_ptr = some e });
    run_queue = update s.run_queue e (s.run_queue e ++ (t ∷ []));
    bitmap = bm;
    linking = update s.linking t 0;
  }

  append_ne : s.run_queue e ++ (t ∷ []) ≢ []
  append_ne h = no_end (s.run_queue e) h
    where
      no_end : (xs : List ℕ) → xs ++ (t ∷ []) ≡ [] → ⊥
      no_end [] q = cc
      no_end (x ∷ xs) q = cc

  section-Visible :
      (bm : PriorityBitmap)
      → Visible s
      → e < s.size
      → IsValid bm
      → length bm.group_table ≡ length s.bitmap.group_table
      → ((q : ℕ) → digit bm q ≡ (if e == q then 1 else digit s.bitmap q))
      → Visible (after_section bm)
  section-Visible bm v he ok size d = record {
    ready = v.ready;
    small = v.small;
    valid = ok;
    groups = size ∙ v.groups;
    inside = λ p h. ground (arith, d p, v.inside p);
    shown = λ p h. ground (arith, d p, v.shown p);
    rising = v.rising;
  }

  section-Linked : (bm : PriorityBitmap) → Linked s → s.linking t ≡ 1 → Linked (after_section bm)
  section-Linked bm l up = record {
    once = λ u p q ne. ground (
      arith,
      up,
      test_bit-le (s.tasks t).state 1,
      l.once u p q ne,
      l.once t p q ne,
      occurs-append u t (s.run_queue e),
    );
    somewhere = λ u on free. elim (eq-cases t u) [
      | inl same ↦ (e, rw ==_refl (rw (occurs-append u t (s.run_queue e)) (ground arith)))
      | inr other ↦
          let (p, h) = l.somewhere u (rw (ne→== t u other) at on) (rw (ne→== t u other) at free) in
          (p, ground (arith, occurs-append u t (s.run_queue e)))
    ];
  }

  section-Alive :
      (bm : PriorityBitmap)
      → Alive s
      → e < s.size
      → (s.tasks t).poll_fn ≢ none
      → Alive (after_section bm)
  section-Alive bm a he fn = record {
    live = λ u h. ground (arith, a.live u);
    dead = λ u h. ground (arith, a.dead u);
    polled = λ u h. ground (arith, fn, a.polled u);
    owned = λ u p h. ground (arith, fn, a.owned u p);
  }

module _ {Out : Type 0} (run_list : IntrusiveList ℕ) where
  -- In a state with the invariant, the critical section of `enqueue`, for a task that has yet to be
  -- linked, on an existing executor, does not panic and keeps the invariant: the task then stands last in
  -- that queue, with its owner and the executor's bit set.
  pub link_lem :
      (s : Spawner Out) (e t : ℕ)
      → Inv s
      → e < s.size
      → s.linking t ≡ 1
      → (bm : PriorityBitmap) × (link run_list s e t ≡ done (after_section s e t bm))
        × ((q : ℕ) → digit bm q ≡ (if e == q then 1 else digit s.bitmap q))
        × Inv (after_section s e t bm)
  unfolding link bm_set
  link_lem s e t v he up =
      let vis = v.visible in
      let on : run_queued (s.tasks t).state ≡ 1 =
        omega
          (arith, up, v.linked.once t e (suc e) (omega arith), test_bit-le (s.tasks t).state 1) in
      let fn = v.alive.polled t on in
      let (bm, eq, ok, size, d) =
        set_lem s.bitmap e vis.valid (omega (arith, vis.groups, vis.small)) in
      (
        bm,
        rw (vis.ready, eq, run_list.push_back_lem (s.run_queue e) t),
        d,
        record {
          visible = section-Visible s e t bm vis he ok size d;
          linked = section-Linked s e t bm v.linked up;
          alive = section-Alive s e t bm v.alive he fn;
        },
      )
