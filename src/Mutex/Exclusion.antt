-- ===== src/Mutex/Exclusion.antt =====
-- Any interleaving of the operations of mutex.rs: at most one guard is out at a time.
use rt_async.Base.{
  inr, subst, ◌∙◌, ◌↔◌, inl, sym, Option-cases, ℕ, suc, ◌≤◌, ◌<◌, ◌≡◌, refl, true, false, Option,
  none, some, if◌then◌else◌, arith,
}
use rt_async.Base.Outcome.{done, done_injective}
use rt_async.External.{VecSeq}
use rt_async.Mutex.{
  Mutex, LockFuture, Poll, ready, pending, new, lock, deref_mut, poll, drop_future, drop_guard,
}
use rt_async.Mutex.Waiters.{
  joined-IsValid, granted-IsValid, dropped-IsValid, parked-IsValid, IsValid, granted, dropped,
  parked, joined, drop_future_lem, poll_lem, drop_guard_lem,
}

-- The mutex and the number of guards that are out.
pub record Shared (T : Type 0) : Type 0 where
  pub mutex : Mutex T
  pub guards : ℕ

pub record Exclusive {T : Type 0} (s : Shared T) : Type 0 where
  pub valid : IsValid s.mutex
  pub counted : s.guards ≡ (if s.mutex.locked then 1 else 0)

module _ {T : Type 0} (vec : VecSeq ℕ) where
  -- What a task can do, when it does not panic: make a lock future at a free address, poll one, drop
  -- one, change the value through a guard, or drop a guard.
  pub data Step (s : Shared T) : Shared T → Type 0 where
    creates : (f : ℕ) → s.mutex.futures f ≡ none → Step s (record s { mutex = lock s.mutex f })
    waits :
        (f cx : ℕ) (m : Mutex T)
        → poll vec s.mutex f cx ≡ done (m, pending)
        → Step s (record s { mutex = m })
    acquires :
        (f cx : ℕ) (m : Mutex T)
        → poll vec s.mutex f cx ≡ done (m, ready)
        → Step s (record { mutex = m; guards = suc s.guards })
    drops :
        (f : ℕ) (m : Mutex T) → drop_future vec s.mutex f ≡ done m → Step s (record s { mutex = m })
    writes :
        (change : T → T) → 0 < s.guards → Step s (record s { mutex = deref_mut s.mutex change })
    releases :
        (g : ℕ) (m : Mutex T) (woken : Option (ℕ × ℕ))
        → s.guards ≡ suc g
        → drop_guard vec s.mutex ≡ done (m, woken)
        → Step s (record { mutex = m; guards = g })

  pub data Reach (s : Shared T) : Shared T → Type 0 where
    here : Reach s s
    next : {t u : Shared T} → Reach s t → Step t u → Reach s u

  pub poll_alive :
      (m : Mutex T) (f cx : ℕ) {r : Mutex T × Poll}
      → poll vec m f cx ≡ done r
      → (this : LockFuture) × (m.futures f ≡ some this)
  unfolding poll
  poll_alive m f cx e = elim (Option-cases (m.futures f)) [
    | inl gone ↦ absurd (ground (arith, gone, e))
    | inr (this, h) ↦ (this, h)
  ]

  pub drop_alive :
      (m : Mutex T) (f : ℕ) {r : Mutex T}
      → drop_future vec m f ≡ done r
      → (this : LockFuture) × (m.futures f ≡ some this)
  unfolding drop_future
  drop_alive m f e = elim (Option-cases (m.futures f)) [
    | inl gone ↦ absurd (ground (arith, gone, e))
    | inr (this, h) ↦ (this, h)
  ]

  -- A poll that is pending leaves the mutex locked and valid.
  pub pending_lem :
      (m m' : Mutex T) (f cx : ℕ)
      → IsValid m
      → poll vec m f cx ≡ done (m', pending)
      → (m.locked ≡ true) × IsValid m' × (m'.locked ≡ true)
  pending_lem m m' f cx v e =
      let (this, h) = poll_alive m f cx e in
      elim (poll_lem vec m f this h cx) [
        | inl (_, eq) ↦ absurd (cc)
        | inr (inl (taken, queued, eq)) ↦
            let same : parked vec m f cx ≡ m' = cc in
            (
              taken,
              subst IsValid same (parked-IsValid vec m f this h v cx),
              subst (λ x. x.locked ≡ true) same taken,
            )
        | inr (inr (inl (taken, fresh, room, eq))) ↦
            let same : joined vec m f cx ≡ m' = cc in
            (
              taken,
              subst IsValid same (joined-IsValid vec m f this h v cx fresh room),
              subst (λ x. x.locked ≡ true) same taken,
            )
        | inr (inr (inr (_, _, _, eq))) ↦ absurd (cc)
      ]

  -- A poll that is ready found the mutex unlocked, and leaves it locked and valid.
  pub ready_lem :
      (m m' : Mutex T) (f cx : ℕ)
      → IsValid m
      → poll vec m f cx ≡ done (m', ready)
      → (m.locked ≡ false) × IsValid m' × (m'.locked ≡ true)
  ready_lem m m' f cx v e =
      let (this, h) = poll_alive m f cx e in
      elim (poll_lem vec m f this h cx) [
        | inl (free, eq) ↦
            let same : granted vec m f this ≡ m' = cc in
            (
              free,
              subst IsValid same (granted-IsValid vec m f this h v),
              subst (λ x. x.locked ≡ true) same (locks this),
            )
        | inr (inl (_, _, eq)) ↦ absurd (cc)
        | inr (inr (inl (_, _, _, eq))) ↦ absurd (cc)
        | inr (inr (inr (_, _, _, eq))) ↦ absurd (cc)
      ]
    where
      locks : (this : LockFuture) → (granted vec m f this).locked ≡ true
      locks this = ground arith

  pub release_lem :
      (m m' : Mutex T) (woken : Option (ℕ × ℕ))
      → IsValid m
      → drop_guard vec m ≡ done (m', woken)
      → IsValid m' × (m'.locked ≡ false)
  release_lem m m' woken v e = elim (drop_guard_lem vec m v) [
    | inl (none_waits, eq) ↦
        let same : record m { locked = false } ≡ m' = cc in
        (
          subst IsValid same (record { bounded = v.bounded; once = v.once; waits = v.waits }),
          subst (λ x. x.locked ≡ false) same refl,
        )
    | inr (f, w, rest, _, _, eq, ok) ↦
        let same : record m { locked = false; waiters = rest } ≡ m' = cc in
        (subst IsValid same ok, subst (λ x. x.locked ≡ false) same refl)
  ]

  pub lock-IsValid : (m : Mutex T) (f : ℕ) → m.futures f ≡ none → IsValid m → IsValid (lock m f)
  unfolding lock
  lock-IsValid m f gone v = record {
    bounded = v.bounded;
    once = v.once;
    waits = λ g h. let (w, e) = v.waits g h in (w, ground arith);
  }

  -- Every step keeps the queue valid and the number of guards at 1 while locked, at 0 while not.
  pub Step-Exclusive : {s t : Shared T} → Step s t → Exclusive s → Exclusive t
  unfolding lock deref_mut
  Step-Exclusive {s} (creates f gone) x = record {
    valid = lock-IsValid s.mutex f gone x.valid;
    counted = x.counted;
  }
  Step-Exclusive {s} (waits f cx m e) x =
      let (taken, ok, still) = pending_lem s.mutex m f cx x.valid e in
      record { valid = ok; counted = ground (arith, x.counted) }
  Step-Exclusive {s} (acquires f cx m e) x =
      let (free, ok, now) = ready_lem s.mutex m f cx x.valid e in
      record { valid = ok; counted = ground (arith, x.counted) }
  Step-Exclusive {s} (drops f m e) x =
      let (this, h) = drop_alive s.mutex f e in
      let same : dropped vec s.mutex f this ≡ m =
        done_injective (sym (drop_future_lem vec s.mutex f this h) ∙ e) in
      record {
        valid = subst IsValid same (dropped-IsValid vec s.mutex f this h x.valid);
        counted = subst (λ (n : Mutex T). s.guards ≡ (if n.locked then 1 else 0)) same x.counted;
      }
  Step-Exclusive {s} (writes change held) x = record {
    valid = record { bounded = x.valid.bounded; once = x.valid.once; waits = x.valid.waits };
    counted = x.counted;
  }
  Step-Exclusive {s} (releases g m woken held e) x =
      let (ok, free) = release_lem s.mutex m woken x.valid e in
      record { valid = ok; counted = ground (arith, x.counted) }

  Reach-Exclusive : {s t : Shared T} → Reach s t → Exclusive s → Exclusive t
  Reach-Exclusive here x = x
  Reach-Exclusive (next r st) x = Step-Exclusive st (Reach-Exclusive r x)

  new-Exclusive :
      (limit : ℕ) (value : T) → Exclusive (record { mutex = new limit value; guards = 0 })
  unfolding new
  new-Exclusive limit value = record {
    valid = record {
      bounded = omega arith;
      once = λ f. omega arith;
      waits = λ f h. absurd (omega arith);
    };
    counted = refl;
  }

  -- From a new mutex, in every interleaving: at most one guard is out, and then exactly while the
  -- mutex is locked; and the queue is valid.
  pub mutual_exclusion :
      (limit : ℕ) (value : T) {s : Shared T}
      → Reach (record { mutex = new limit value; guards = 0 }) s
      → (s.guards ≤ 1) × ((s.guards ≡ 1) ↔ (s.mutex.locked ≡ true)) × IsValid s.mutex
  mutual_exclusion limit value {s} r =
      let x = Reach-Exclusive r (new-Exclusive limit value) in
      (ground (arith, x.counted), ground (arith, x.counted), x.valid)
