-- ===== src/Kernel/Steps.antt =====
-- Any order of the calls of executor.rs, spawner.rs, storage.rs and join_handle.rs, and of the parts of
-- `spawn` and `wake_task`, from `Spawner::new` and `init` on, by tasks, wakers and interrupts.
-- `begins_enqueue`, `links`, `pends` and `pends_if_higher` are the parts of `spawn` and `wake_task`: anything may come
-- between them, also between the atomic of `enqueue` and its critical section. The whole calls, with
-- nothing in between, are steps as well. `TaskStorage::spawn`, an atomic and the writes to the storage, and
-- `pend` and `clear_pend`, an atomic and a register each, are one step.
use rt_async.Base.{
  ◌∙◌, lt→ltb, sym, ap, subst, lt-cases, refl, ◌≤◌, ◌⊎◌, ℕ, ◌<◌, ◌≡◌, ◌≢◌, true, false, Option,
  none, arith, inl, inr, [],
}
use rt_async.Base.Outcome.{done_injective, Outcome, done}
use rt_async.External.{IntrusiveList, VecStack}
use rt_async.Bitmap.Digits.{new-IsValid}
use rt_async.Task.{new_task}
use rt_async.Task.State.Flags.{run_queued}
use rt_async.Kernel.{
  Spawner, new, init, storage_spawn, join_poll, clear_pend, pend, begin_enqueue, link, wake_task,
  take_next, finish_poll,
}
use rt_async.Kernel.Dispatch.{spawn, pend_if_higher, try_preempt, complete_executor}
use rt_async.Kernel.Invariant.{Inv}
use rt_async.Kernel.Mark.{link_lem}
use rt_async.Kernel.Link.{
  after_link, skip-Inv, after_skip, enqueue_lem, enqueue-Inv, begin_enqueue-Inv, pend-Inv,
}
use rt_async.Kernel.Spawns.{storage_spawn_lem, join_poll_lem, pend_if_higher_lem, NoneHigher}
use rt_async.Kernel.Wake.{wake_task-Inv, finish_poll-Inv}
use rt_async.Kernel.Take.{take_next_lem}
use rt_async.Kernel.Preempt.{try_preempt_lem, complete_executor-Inv}
use rt_async.Base.Bits.{test_bit-zero}

-- `Spawner::new` succeeds for 1 to 4096 priorities, and `init` then establishes the invariant.
pub new-Inv :
    (Out : Type 0) (size : ℕ)
    → 0 < size
    → size ≤ 4096
    → (s : Spawner Out) × (new Out size ≡ done s) × Inv (init s) × (s.size ≡ size)
unfolding new init new_task
new-Inv Out size pos small =
    let (bm, eq, ok, groups, clear) = new-IsValid 64 (omega arith) (omega arith) in
    let s : Spawner Out = record {
      size = size;
      initialized = false;
      tasks = λ t. new_task Out;
      run_queue = λ p. [];
      bitmap = bm;
      prio_stack = [];
      pend_marker = false;
      msip = false;
      linking = λ t. 0;
    } in
    (
      s,
      rw eq (ground arith),
      record {
        visible = record {
          ready = refl;
          small = small;
          valid = ok;
          groups = groups;
          inside = λ p h. absurd (omega (arith, clear p));
          shown = λ p h. absurd (h refl);
          rising = tt;
        };
        linked = record {
          once = λ t p q ne. omega arith;
          somewhere = λ t h free. absurd (omega (arith, test_bit-zero 1));
        };
        alive = record {
          live = λ t h. absurd (omega (arith, test_bit-zero 0));
          dead = λ t h. refl;
          polled = λ t h. absurd (omega (arith, test_bit-zero 1));
          owned = λ t e h. cc;
        };
      },
      refl,
    )

pub clear_pend-Inv : {Out : Type 0} (s : Spawner Out) → Inv s → Inv (clear_pend s).0
unfolding clear_pend
clear_pend-Inv s v = record {
  visible = record {
    ready = v.visible.ready;
    small = v.visible.small;
    valid = v.visible.valid;
    groups = v.visible.groups;
    inside = v.visible.inside;
    shown = v.visible.shown;
    rising = v.visible.rising;
  };
  linked = record { once = v.linked.once; somewhere = v.linked.somewhere };
  alive = record {
    live = v.alive.live;
    dead = v.alive.dead;
    polled = v.alive.polled;
    owned = v.alive.owned;
  };
}

new_in_range :
    (Out : Type 0) (size : ℕ) (s : Spawner Out) → new Out size ≡ done s → (0 < size) × (size ≤ 4096)
unfolding new
new_in_range Out size s e = ground (arith, e)

module _ {Out : Type 0} (run_list : IntrusiveList ℕ) (vec : VecStack ℕ) where
  pub spawn-Inv :
      (s : Spawner Out) (prio t : ℕ)
      → Inv s
      → prio < s.size
      → (s.tasks t).poll_fn ≢ none
      → (s' : Spawner Out) × (spawn run_list vec s prio t ≡ done s')
        × Inv s'
        × ((run_queued (s.tasks t).state ≡ 1)
            ⊎ (((s'.pend_marker ≡ true) × (s'.msip ≡ true)) ⊎ NoneHigher vec s'))
  unfolding spawn
  spawn-Inv s prio t v inside fn =
      let (s', linked, eq, ok, size, stack, up) = enqueue-Inv run_list s prio t v inside fn in
      let (s'', eq', ok', how) = pend_if_higher_lem vec s' ok in
      elim (enqueue_lem run_list s prio t v inside fn) [
        | inl (on, skip) ↦ (
          after_skip s prio t,
          rw (lt→ltb prio s.size inside, skip),
          skip-Inv s prio t v on,
          inl on,
        )
        | inr (bm, off, link, _, ok₁) ↦
            let (s₂, eq₂, ok₂, how₂) = pend_if_higher_lem vec (after_link s prio t bm) ok₁ in
            (s₂, rw (lt→ltb prio s.size inside, link) eq₂, ok₂, inr how₂)
      ]

  -- One call, by a task, a waker or an interrupt, that did not panic. A token for `spawn` comes from
  -- `TaskStorage::spawn`, so its task has a poll function; `answer` is what a future returned.
  pub data Step (s s' : Spawner Out) : Type 0 where
    storage_spawns : (t : ℕ) → s' ≡ (storage_spawn s t).0 → Step s s'
    spawns :
        (prio t : ℕ)
        → (s.tasks t).poll_fn ≢ none
        → spawn run_list vec s prio t ≡ done s'
        → Step s s'
    begins_enqueue : (t : ℕ) → (s.tasks t).poll_fn ≢ none → s' ≡ (begin_enqueue s t).0 → Step s s'
    links : (e t : ℕ) → e < s.size → s.linking t ≡ 1 → link run_list s e t ≡ done s' → Step s s'
    pends : s' ≡ pend s → Step s s'
    pends_if_higher : pend_if_higher vec s ≡ done s' → Step s s'
    wakes : (t : ℕ) → wake_task run_list s t ≡ done s' → Step s s'
    joins : (t cx : ℕ) → s' ≡ (join_poll s t cx).0 → Step s s'
    preempts : (token : Option ℕ) → try_preempt vec s ≡ done (s', token) → Step s s'
    takes :
        (e : ℕ) (next : Option ℕ)
        → e < s.size
        → take_next run_list s e ≡ done (s', next)
        → Step s s'
    finishes : (t : ℕ) (answer : Option Out) → finish_poll run_list s t answer ≡ done s' → Step s s'
    completes : s' ≡ complete_executor vec s → Step s s'
    clears : s' ≡ (clear_pend s).0 → Step s s'

  pub data Reach (s : Spawner Out) : Spawner Out → Type 0 where
    here : Reach s s
    next : {u v : Spawner Out} → Reach s u → Step u v → Reach s v

  same_result :
      {s t : Spawner Out} {r : Outcome (Spawner Out)} → r ≡ done s → r ≡ done t → Inv s → Inv t
  same_result e e' v = subst Inv (done_injective (sym e ∙ e')) v

  same_pair :
      {s t : Spawner Out} {a b : Option ℕ} {r : Outcome (Spawner Out × Option ℕ)}
      → r ≡ done (s, a)
      → r ≡ done (t, b)
      → Inv s
      → Inv t
  same_pair {a = a} {b = b} e e' v = subst Inv (ap (λ x. x.0) (done_injective (sym e ∙ e'))) v

  spawn_inside :
      (s s' : Spawner Out) (prio t : ℕ) → spawn run_list vec s prio t ≡ done s' → prio < s.size
  unfolding spawn
  spawn_inside s s' prio t e = elim (lt-cases prio s.size) [
    | inl h ↦ h
    | inr h ↦ absurd (ground (arith, e, h))
  ]

  -- Every call keeps the invariant, whatever the calls before it were.
  pub Step-Inv : {s s' : Spawner Out} → Step s s' → Inv s → Inv s'
  Step-Inv {s} {s'} (storage_spawns t e) v = rw e ((storage_spawn_lem s t v).0)
  Step-Inv {s} {s'} (spawns prio t fn e) v =
      let (s₁, eq, ok, _) = spawn-Inv s prio t v (spawn_inside s s' prio t e) fn in
      same_result eq e ok
  Step-Inv {s} {s'} (begins_enqueue t fn e) v = rw e (begin_enqueue-Inv s t v fn)
  Step-Inv {s} {s'} (links p t inside up e) v =
      let (bm, eq, _, ok) = link_lem run_list s p t v inside up in same_result eq e ok
  Step-Inv {s} {s'} (pends e) v = rw e (pend-Inv s v)
  Step-Inv {s} {s'} (pends_if_higher e) v =
      let (s₁, eq, ok, _) = pend_if_higher_lem vec s v in same_result eq e ok
  Step-Inv {s} {s'} (wakes t e) v =
      let (s₁, eq, ok, _, _, _) = wake_task-Inv run_list s t v in same_result eq e ok
  Step-Inv {s} {s'} (joins t cx e) v = rw e ((join_poll_lem s t cx v).0)
  Step-Inv {s} {s'} (preempts token e) v = elim (try_preempt_lem vec s v) [
    | inl (p, (_, _, eq, ok)) ↦ same_pair eq e ok
    | inr (_, eq) ↦ same_pair eq e v
  ]
  Step-Inv {s} {s'} (takes p n inside e) v = elim (take_next_lem run_list s p v inside) [
    | inl (_, _, _, eq, _, ok) ↦ same_pair eq e ok
    | inr (_, _, eq, _, ok) ↦ same_pair eq e ok
  ]
  Step-Inv {s} {s'} (finishes t answer e) v =
      let (s₁, eq, ok, _, _) = finish_poll-Inv run_list s t answer v in same_result eq e ok
  Step-Inv {s} {s'} (completes e) v = rw e (complete_executor-Inv vec s v)
  Step-Inv {s} {s'} (clears e) v = rw e (clear_pend-Inv s v)

  Reach_keeps : {s s' : Spawner Out} → Reach s s' → Inv s → Inv s'
  Reach_keeps here v = v
  Reach_keeps (next r st) v = Step-Inv st (Reach_keeps r v)

  -- In every state that `new`, `init` and then any calls, and parts of `spawn` and `wake_task`, in any
  -- order lead to, the invariant holds.
  pub Reach-Inv :
      (size : ℕ) (s₀ : Spawner Out) {s : Spawner Out}
      → new Out size ≡ done s₀
      → Reach (init s₀) s
      → Inv s
  Reach-Inv size s₀ e r = Reach_keeps r (started size s₀ e)
    where
      started : (size : ℕ) (s₀ : Spawner Out) → new Out size ≡ done s₀ → Inv (init s₀)
      started size s₀ e =
          let (pos, small) = new_in_range Out size s₀ e in
          let (s₁, eq, ok, _) = new-Inv Out size pos small in
          subst (λ u. Inv (init u)) (done_injective (sym eq ∙ e)) ok
