-- ===== src/Kernel/Preempt.antt =====
-- `try_preempt` and `complete_executor` of spawner.rs.
use rt_async.Base.{
  refl, sym, subst, lt-cases, ◌≤◌, suc, ◌⊎◌, ℕ, ◌<◌, ◌≡◌, none, some, arith, inl, inr, List, [],
  ◌∷◌,
}
use rt_async.Base.Outcome.{done}
use rt_async.External.{VecStack}
use rt_async.Bitmap.{highest}
use rt_async.Bitmap.Highest.{NoneSet, IsHighest, highest_lem}
use rt_async.Priority
use rt_async.Kernel.{Spawner}
use rt_async.Kernel.Dispatch.{push_prio, try_preempt, complete_executor}
use rt_async.Kernel.Invariant.{Inv, Rising, length-Rising, Rising-weaken}

-- Every running priority is a larger number than `p`.
abbrev pub AllBelow : ℕ → List ℕ → Type 0
AllBelow p [] = Unit {0}
AllBelow p (q ∷ qs) = p < q

module _ {Out : Type 0} where
  -- The scheduler with another priority stack.
  abbrev pub with_stack : Spawner Out → List ℕ → Spawner Out
  with_stack s stack = record s { prio_stack = stack }

  with_stack-Inv :
      (s : Spawner Out) (stack : List ℕ) → Inv s → Rising 0 s.size stack → Inv (with_stack s stack)
  with_stack-Inv s stack v r = record {
    visible = record {
      ready = v.visible.ready;
      small = v.visible.small;
      valid = v.visible.valid;
      groups = v.visible.groups;
      inside = v.visible.inside;
      shown = v.visible.shown;
      rising = r;
    };
    linked = record { once = v.linked.once; somewhere = v.linked.somewhere };
    alive = record {
      live = v.alive.live;
      dead = v.alive.dead;
      polled = v.alive.polled;
      owned = v.alive.owned;
    };
  }

  module _ (vec : VecStack ℕ) (s : Spawner Out) (v : Inv s) where
    -- `try_preempt` starts the priority `p`: it is the highest that is ready, higher than the running
    -- one, and is pushed.
    abbrev pub Starts : ℕ → Type 0
    Starts p =
        IsHighest s.bitmap p
        × AllBelow p s.prio_stack
        × (try_preempt vec s ≡ done (with_stack s (p ∷ s.prio_stack), some p))
        × Inv (with_stack s (p ∷ s.prio_stack))

    -- `try_preempt` changes nothing: nothing is ready, or nothing above the running priority.
    abbrev pub Stays : Type 0
    Stays =
        (NoneSet s.bitmap
          ⊎ ((p : ℕ) × IsHighest s.bitmap p × (q : ℕ) × (vec.last s.prio_stack ≡ some q) × (q ≤ p)))
        × (try_preempt vec s ≡ done (s, none))

    push-Starts :
        (p : ℕ) (stack : List ℕ)
        → s.prio_stack ≡ stack
        → IsHighest s.bitmap p
        → AllBelow p stack
        → Rising 0 s.size (p ∷ stack) × (vec.push s.size stack p ≡ some (p ∷ stack))
    push-Starts p stack same h below =
        let inside : p < s.size = v.visible.inside p h.on in
        let rises : Rising 0 s.size (p ∷ stack) =
          (omega arith, inside, rise stack (subst (Rising 0 s.size) same v.visible.rising) below) in
        let room = length-Rising 0 s.size (p ∷ stack) (omega arith) rises in
        (rises, vec.push_room s.size stack p (omega (arith, room)))
      where
        rise : (ps : List ℕ) → Rising 0 s.size ps → AllBelow p ps → Rising (suc p) s.size ps
        rise [] r b = tt
        rise (q ∷ qs) r b = (b, r.1, r.2)

    -- In a state with the invariant `try_preempt` never panics and the bounded stack never overflows: it
    -- starts the highest ready priority if nothing runs or if that is higher than the running one,
    -- and otherwise changes nothing.
    pub try_preempt_lem : ((p : ℕ) × Starts p) ⊎ Stays
    unfolding try_preempt push_prio Priority.is_lower_than Priority.new
    try_preempt_lem = elim (highest_lem s.bitmap v.visible.valid) [
      | inl (e, z) ↦ inr (inl z, rw e)
      | inr (p, e, h) ↦ split s.prio_stack refl p e h
    ]
      where
        split :
            (stack : List ℕ)
            → s.prio_stack ≡ stack
            → (p : ℕ) → highest s.bitmap ≡ done (some p)
            → IsHighest s.bitmap p
            → ((p : ℕ) × Starts p) ⊎ Stays
        split [] same p e h =
            let (rises, pushed) = push-Starts p [] same h tt in
            inl (
              p,
              (
                h,
                rw same tt,
                ground (arith, e, same, vec.last-nil, pushed),
                with_stack-Inv s _ v (rw same rises),
              ),
            )
        split (q ∷ qs) same p e h = elim (lt-cases p q) [
          | inl higher ↦
              let (rises, pushed) = push-Starts p (q ∷ qs) same h higher in
              inl (
                p,
                (
                  h,
                  rw same higher,
                  ground (arith, e, same, vec.last-cons q qs, pushed),
                  with_stack-Inv s _ v (rw same rises),
                ),
              )
          | inr lower ↦ inr (
            inr (p, h, q, rw (same, vec.last-cons q qs), lower),
            rw (e, same, vec.last-cons q qs) (ground arith),
          )
        ]

    -- `complete_executor`, which pops the running priority if there is one, keeps the invariant.
    pub complete_executor-Inv : Inv (complete_executor vec s)
    unfolding complete_executor
    complete_executor-Inv = split s.prio_stack refl v.visible.rising
      where
        split :
            (stack : List ℕ)
            → s.prio_stack ≡ stack
            → Rising 0 s.size stack
            → Inv (complete_executor vec s)
        split [] same r = subst Inv (sym (simp (complete_executor, same, vec.pop-nil))) v
        split (p ∷ ps) same r =
            subst Inv (sym (simp (complete_executor, same, vec.pop-cons)))
              (with_stack-Inv s ps v (Rising-weaken 0 (suc p) s.size ps (omega arith) r.2))
