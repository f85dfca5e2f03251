-- ===== src/Mutex/Waiters.antt =====
-- The queue of mutex.rs: every entry points to a live future that holds a waker, none is there twice,
-- and the queue stays within its capacity.
use rt_async.Base.{
  sym, lt-cases, ap, ◌⊎◌, Bool-cases, eq-cases, length-append, subst, inr, inl, ℕ, ◌+◌, ◌≤◌, ◌<◌,
  ◌≡◌, refl, Bool, true, false, not, none, some, List, [], ◌∷◌, ◌++◌, ◌==◌, if◌then◌else◌, update,
  arith, length,
}
use rt_async.Base.Outcome.{panic, done}
use rt_async.External.{VecSeq}
use rt_async.Mutex.{Mutex, LockFuture, ready, pending, without, poll, drop_future, drop_guard}

abbrev pub occurs : ℕ → List ℕ → ℕ
occurs f [] = 0
occurs f (x ∷ xs) = (if x == f then 1 else 0) + occurs f xs

pub occurs-append :
    (f x : ℕ) (xs : List ℕ) → occurs f (xs ++ (x ∷ [])) ≡ occurs f xs + (if x == f then 1 else 0)
occurs-append f x [] = ground arith
occurs-append f x (y ∷ xs) = ground (arith, occurs-append f x xs)

-- The future at `f` exists, knows that it is queued, and holds a waker.
abbrev pub Waits : {T : Type 0} → Mutex T → ℕ → Type 0
Waits m f = (w : ℕ) × (m.futures f ≡ some (record { queued = true; waker = some w }))

pub record IsValid {T : Type 0} (m : Mutex T) : Type 0 where
  pub bounded : length m.waiters ≤ m.limit
  pub once : (f : ℕ) → occurs f m.waiters ≤ 1
  pub waits : (f : ℕ) → 0 < occurs f m.waiters → Waits m f

module _ (vec : VecSeq ℕ) where
  pub occurs-without :
      (f g : ℕ) (xs : List ℕ) → occurs g (without vec xs f) ≡ (if f == g then 0 else occurs g xs)
  occurs-without f g [] = rw (vec.retain-nil) (ground arith)
  occurs-without f g (x ∷ xs) =
      rw (vec.retain-cons (λ p. not (p == f)) x xs) (ground (arith, occurs-without f g xs))

  pub length-without : (f : ℕ) (xs : List ℕ) → length (without vec xs f) ≤ length xs
  length-without f [] = rw (vec.retain-nil) (omega arith)
  length-without f (x ∷ xs) =
      rw (vec.retain-cons (λ p. not (p == f)) x xs) (ground (arith, length-without f xs))

  -- The mutex after the future at `f` is dropped.
  abbrev pub dropped : {T : Type 0} → Mutex T → ℕ → LockFuture → Mutex T
  dropped m f this = record m {
    waiters = (if this.queued then without vec m.waiters f else m.waiters);
    futures = update m.futures f none;
  }

  -- The mutex after the future at `f` is polled while it is unlocked.
  abbrev pub granted : {T : Type 0} → Mutex T → ℕ → LockFuture → Mutex T
  granted m f this =
      if this.queued
      then record m {
        locked = true;
        waiters = without vec m.waiters f;
        futures = update m.futures f (some (record this { waker = none }));
      }
      else record m { locked = true }

  -- The mutex after the queued future at `f` is polled while it is locked.
  abbrev pub parked : {T : Type 0} → Mutex T → ℕ → ℕ → Mutex T
  parked m f cx = record m {
    futures = update m.futures f (some (record { queued = true; waker = some cx }));
  }

  -- The same for a future that was not queued.
  abbrev pub joined : {T : Type 0} → Mutex T → ℕ → ℕ → Mutex T
  joined m f cx = record m {
    waiters = m.waiters ++ (f ∷ []);
    futures = update m.futures f (some (record { queued = true; waker = some cx }));
  }

  module _ {T : Type 0} (m : Mutex T) (f : ℕ) (this : LockFuture)
      (here : m.futures f ≡ some this) where
    pub drop_future_lem : drop_future vec m f ≡ done (dropped m f this)
    unfolding drop_future
    drop_future_lem = ground (arith, here)

    -- What `poll` does on each of its branches: the lock is free and is handed out; it is taken and
    -- the future is queued; it is taken, and the future joins the queue or finds it full.
    abbrev pub Polled : ℕ → Type 0
    Polled cx =
        ((m.locked ≡ false) × (poll vec m f cx ≡ done (granted m f this, ready)))
        ⊎ (((m.locked ≡ true)
              × (this.queued ≡ true)
              × (poll vec m f cx ≡ done (parked m f cx, pending)))
            ⊎ (((m.locked ≡ true)
                  × (this.queued ≡ false)
                  × (length m.waiters < m.limit)
                  × (poll vec m f cx ≡ done (joined m f cx, pending)))
                ⊎ ((m.locked ≡ true)
                    × (this.queued ≡ false)
                    × (m.limit ≤ length m.waiters)
                    × (poll vec m f cx ≡ panic))))

    pub poll_lem : (cx : ℕ) → Polled cx
    unfolding poll
    poll_lem cx = elim (Bool-cases m.locked) [
      | inr free ↦ inl (free, ground (arith, here, free))
      | inl taken ↦ inr (elim (Bool-cases this.queued) [
        | inl queued ↦ inl (taken, queued, ground (arith, here, taken, queued))
        | inr fresh ↦ inr (elim (lt-cases (length m.waiters) m.limit) [
          | inl room ↦ inl (
            taken,
            fresh,
            room,
            ground (arith, here, taken, fresh, vec.push_room m.limit m.waiters f room),
          )
          | inr full ↦ inr (
            taken,
            fresh,
            full,
            ground (arith, here, taken, fresh, vec.push_full m.limit m.waiters f full),
          )
        ])
      ])
    ]

    module _ (v : IsValid m) where
      queued_of_mem : 0 < occurs f m.waiters → this.queued ≡ true
      queued_of_mem h = ground (arith, v.waits f h, here)

      pub dropped-IsValid : IsValid (dropped m f this)
      dropped-IsValid = record {
        bounded = ground (arith, v.bounded, length-without f m.waiters);
        once = λ g. ground (arith, v.once g, occurs-without f g m.waiters);
        waits = λ g h. ground (arith, v.waits g, queued_of_mem, occurs-without f g m.waiters);
      }

      pub granted-IsValid : IsValid (granted m f this)
      granted-IsValid = elim (Bool-cases this.queued) [
        | inl queued ↦
            subst (λ b. IsValid (grants b)) (sym queued)
              (record {
                bounded = omega (arith, v.bounded, length-without f m.waiters);
                once = λ g. ground (arith, v.once g, occurs-without f g m.waiters);
                waits = λ g h. ground (arith, v.waits g, occurs-without f g m.waiters);
              })
        | inr not_queued ↦
            subst (λ b. IsValid (grants b)) (sym not_queued)
              (record { bounded = v.bounded; once = v.once; waits = v.waits })
      ]
        where
          grants : Bool → Mutex T
          grants b =
              if b
              then record m {
                locked = true;
                waiters = without vec m.waiters f;
                futures = update m.futures f (some (record this { waker = none }));
              }
              else record m { locked = true }

      pub parked-IsValid : (cx : ℕ) → IsValid (parked m f cx)
      parked-IsValid cx = record {
        bounded = v.bounded;
        once = v.once;
        waits = λ g h. elim (eq-cases f g) [
          | inl same ↦ (cx, ground arith)
          | inr other ↦ let (w, e) = v.waits g h in (w, ground arith)
        ];
      }

      pub joined-IsValid :
          (cx : ℕ) → this.queued ≡ false → length m.waiters < m.limit → IsValid (joined m f cx)
      joined-IsValid cx fresh room = record {
        bounded = omega (arith, length-append {0} m.waiters (f ∷ []), room);
        once = λ g. ground (arith, v.once g, occurs-append g f m.waiters, queued_of_mem);
        waits = λ g h. elim (eq-cases f g) [
          | inl same ↦ (cx, ground arith)
          | inr other ↦
              let (w, e) = v.waits g (ground (arith, occurs-append g f m.waiters)) in
              (w, ground arith)
        ];
      }

  module _ {T : Type 0} (m : Mutex T) (v : IsValid m) where
    -- `drop_guard` on a valid mutex does not panic and keeps it valid: with nobody waiting it unlocks; otherwise it also takes the oldest
    -- waiter out of the queue and calls its waker, which is there.
    pub drop_guard_lem :
        ((m.waiters ≡ []) × (drop_guard vec m ≡ done (record m { locked = false }, none)))
        ⊎ ((f w : ℕ) × (rest : List ℕ) × (m.waiters ≡ f ∷ rest)
            × (m.futures f ≡ some (record { queued = true; waker = some w }))
            × (drop_guard vec m ≡ done (record m { locked = false; waiters = rest }, some (f, w)))
            × IsValid (record m { locked = false; waiters = rest }))
    unfolding drop_guard
    drop_guard_lem = split m.waiters refl
      where
        split :
            (ws : List ℕ)
            → m.waiters ≡ ws
            → ((ws ≡ []) × (drop_guard vec m ≡ done (record m { locked = false }, none)))
              ⊎ ((f w : ℕ) × (rest : List ℕ) × (ws ≡ f ∷ rest)
                  × (m.futures f ≡ some (record { queued = true; waker = some w }))
                  × (drop_guard vec m
                      ≡ done (record m { locked = false; waiters = rest }, some (f, w)))
                  × IsValid (record m { locked = false; waiters = rest }))
        split [] e = inl (refl, ground (arith, e))
        split (f ∷ rest) e =
            let (w, h) = v.waits f (rw e (ground arith)) in
            inr (
              f,
              w,
              rest,
              refl,
              h,
              ground (arith, e, h, vec.remove_first f rest),
              record {
                bounded = omega (arith, v.bounded, ap length e);
                once = λ g. ground (arith, v.once g, e);
                waits = λ g k. v.waits g (rw e (ground arith));
              },
            )
