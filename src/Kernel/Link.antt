-- ===== src/Kernel/Link.antt =====
-- `Executor::enqueue` and `wake_task` of executor.rs.
use rt_async.Base.{
  refl, sym, ap, subst, suc, true, false, Bool, ◌⊎◌, ℕ, ◌<◌, ◌≡◌, ◌≢◌, ◌∙◌, inl, inr, none, some,
  [], ◌∷◌, ◌++◌, arith, ◌==◌, if◌then◌else◌, update, eq-cases, ==_refl, ne→==,
}
use rt_async.Bitmap.{PriorityBitmap}
use rt_async.Bitmap.Digits.{digit}
use rt_async.Task.State
use rt_async.Task.State.Flags.{run_queued, run_enqueue_lem}
use rt_async.Kernel.{done, pend, begin_enqueue, link, enqueue, Spawner, set_task}
use rt_async.Kernel.Mark.{after_mark, after_section, mark-Inv, begin_enqueue-first, link_lem}
use mathlib.Core.Path.{ap₂, fun_ext}
use rt_async.Kernel.Invariant.{Inv}
use rt_async.External.{IntrusiveList}
use rt_async.Base.Bits.{test_bit-le}

module _ {Out : Type 0} (s : Spawner Out) (e t : ℕ) where
  abbrev bits : ℕ
  bits = (State.run_enqueue (s.tasks t).state).0

  -- The state after `enqueue` has linked the task.
  abbrev pub after_link : PriorityBitmap → Spawner Out
  after_link bm = record s {
    tasks = update s.tasks t (record (s.tasks t) { state = bits; executor_ptr = some e });
    run_queue = update s.run_queue e (s.run_queue e ++ (t ∷ []));
    bitmap = bm;
  }

  -- The state after `enqueue` has found it linked.
  abbrev pub after_skip : Spawner Out
  after_skip = set_task s t (record (s.tasks t) { state = bits })

  -- Both halves in one go.
  section-mark :
      (bm : PriorityBitmap)
      → s.linking t ≡ 0
      → after_section (after_mark s t) e t bm ≡ after_link bm
  section-mark bm free =
      ap₂
        (λ tasks linking. record s {
          tasks = tasks;
          run_queue = update s.run_queue e (s.run_queue e ++ (t ∷ []));
          bitmap = bm;
          linking = linking;
        })
        (fun_ext (λ j. elim (eq-cases t j) [
          | inl same ↦ rw (← same) (rw ==_refl)
          | inr other ↦ rw (ne→== t j other)
        ]))
        (fun_ext (λ j. elim (eq-cases t j) [
          | inl same ↦ rw (← same) (rw (==_refl, free))
          | inr other ↦ rw (ne→== t j other)
        ]))

  pub skip-Inv : Inv s → run_queued (s.tasks t).state ≡ 1 → Inv after_skip
  skip-Inv v on = record {
    visible = record {
      ready = v.visible.ready;
      small = v.visible.small;
      valid = v.visible.valid;
      groups = v.visible.groups;
      inside = v.visible.inside;
      shown = v.visible.shown;
      rising = v.visible.rising;
    };
    linked = record {
      once = λ u p q ne. ground (arith, run_enqueue_lem (s.tasks t).state, v.linked.once u p q ne);
      somewhere = λ u h. v.linked.somewhere u (ground (arith, run_enqueue_lem (s.tasks t).state));
    };
    alive = record {
      live = λ u h. ground (arith, run_enqueue_lem (s.tasks t).state, v.alive.live u);
      dead = λ u h. ground (arith, run_enqueue_lem (s.tasks t).state, v.alive.dead u);
      polled = λ u h. ground (arith, on, v.alive.polled u);
      owned = λ u p h. ground (arith, v.alive.owned u p);
    };
  }

-- `platform::pend` touches nothing that the invariant is about.
pub pend-Inv : {Out : Type 0} (s : Spawner Out) → Inv s → Inv (pend s)
unfolding pend
pend-Inv s v = record {
  visible = record {
    ready = v.visible.ready;
    small = v.visible.small;
    valid = v.visible.valid;
    groups = v.visible.groups;
    inside = v.visible.inside;
    shown = v.visible.shown;
    rising = v.visible.rising;
  };
  linked = record { once = v.linked.once; somewhere = v.linked.somewhere };
  alive = record {
    live = v.alive.live;
    dead = v.alive.dead;
    polled = v.alive.polled;
    owned = v.alive.owned;
  };
}

flag-cases : (b : ℕ) → (run_queued b ≡ 0) ⊎ (run_queued b ≡ 1)
flag-cases b = elim (eq-cases (run_queued b) 0) [
  | inl e ↦ inl e
  | inr ne ↦ inr (omega (arith, test_bit-le b 1))
]

-- Raising the flag keeps the invariant, for a task with a poll function.
pub begin_enqueue-Inv :
    {Out : Type 0} (s : Spawner Out) (t : ℕ)
    → Inv s
    → (s.tasks t).poll_fn ≢ none
    → Inv (begin_enqueue s t).0
unfolding begin_enqueue
begin_enqueue-Inv s t v fn = elim (flag-cases (s.tasks t).state) [
  | inl off ↦ subst Inv (ap (λ x. x.0) (sym (begin_enqueue-first s t off))) (mark-Inv s t v off fn)
  | inr on ↦
      let skipped : (State.run_enqueue (s.tasks t).state).1 ≡ false =
        rw ((run_enqueue_lem (s.tasks t).state).2, on) in
      rw skipped (skip-Inv s t t v on)
]

module _ {Out : Type 0} (run_list : IntrusiveList ℕ) where
  -- What a call of `enqueue` has done: the task was linked already, and nothing else changed; or it
  -- is now the last in the queue of `e`, owned by `e`, and the bit of `e` is set.
  abbrev pub Enqueued : Spawner Out → ℕ → ℕ → Type 0
  Enqueued s e t =
      ((run_queued (s.tasks t).state ≡ 1)
        × (enqueue run_list s e t ≡ done (after_skip s e t, false)))
      ⊎ ((bm : PriorityBitmap) × (run_queued (s.tasks t).state ≡ 0)
          × (enqueue run_list s e t ≡ done (after_link s e t bm, true))
          × ((q : ℕ) → digit bm q ≡ (if e == q then 1 else digit s.bitmap q))
          × Inv (after_link s e t bm))

  enqueue-first :
      (s s₁ s' : Spawner Out) (e t : ℕ)
      → begin_enqueue s t ≡ (s₁, true)
      → link run_list s₁ e t ≡ done s'
      → enqueue run_list s e t ≡ done (s', true)
  unfolding enqueue
  enqueue-first s s₁ s' e t e₁ e₂ = rw (e₁, enqueue) (rw (e₂, enqueue) refl)

  pub enqueue_lem :
      (s : Spawner Out) (e t : ℕ) → Inv s → e < s.size → (s.tasks t).poll_fn ≢ none → Enqueued s e t
  unfolding enqueue begin_enqueue
  enqueue_lem s e t v he fn = elim (flag-cases (s.tasks t).state) [
    | inr on ↦ inl (on, rw ((run_enqueue_lem (s.tasks t).state).2, on))
    | inl off ↦
        let marked = mark-Inv s t v off fn in
        let (bm, eq, d, ok) = link_lem run_list (after_mark s t) e t marked he (rw ==_refl) in
        let free : s.linking t ≡ 0 = omega (arith, off, v.linked.once t e (suc e) (omega arith)) in
        let same = section-mark s e t bm free in
        (inr (
          bm,
          off,
          enqueue-first s _ _ e t (begin_enqueue-first s t off) eq ∙ ap (λ x. done (x, true)) same,
          d,
          subst Inv same ok,
        ))
  ]

  pub enqueue-Inv :
      (s : Spawner Out) (e t : ℕ)
      → Inv s
      → e < s.size
      → (s.tasks t).poll_fn ≢ none
      → (s' : Spawner Out) × (b : Bool) × (enqueue run_list s e t ≡ done (s', b))
        × Inv s'
        × (s'.size ≡ s.size)
        × (s'.prio_stack ≡ s.prio_stack)
        × (run_queued (s'.tasks t).state ≡ 1)
  enqueue-Inv s e t v he fn = elim (enqueue_lem s e t v he fn) [
    | inl (on, eq) ↦ (
      after_skip s e t,
      false,
      eq,
      skip-Inv s e t v on,
      refl,
      refl,
      rw ==_refl ((run_enqueue_lem (s.tasks t).state).0),
    )
    | inr (bm, off, eq, d, ok) ↦ (
      after_link s e t bm,
      true,
      eq,
      ok,
      refl,
      refl,
      rw ==_refl ((run_enqueue_lem (s.tasks t).state).0),
    )
  ]
