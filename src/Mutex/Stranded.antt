-- ===== src/Mutex/Stranded.antt =====
-- A waiter of mutex.rs that has been woken and finds the lock taken again: its future still says
-- `queued`, so `poll` does not put it back into the queue.
use rt_async.Base.{
  eq-cases, ◌∙◌, subst, inr, sym, inl, ℕ, ◌≡◌, ◌≢◌, true, false, Option, none, some, arith,
}
use rt_async.Base.Outcome.{done, done_injective}
use rt_async.External.{VecSeq}
use rt_async.Mutex.{Mutex, LockFuture, ready, pending, lock, poll, drop_future, drop_guard}
use rt_async.Mutex.Waiters.{
  occurs-append, dropped-IsValid, IsValid, occurs, granted, dropped, parked, joined,
  drop_future_lem, poll_lem, drop_guard_lem, occurs-without,
}
use rt_async.Mutex.Exclusion.{
  pending_lem, ready_lem, release_lem, poll_alive, drop_alive, lock-IsValid,
}

-- The future at `f` is alive and says that it is queued, but is not in the queue.
pub record IsStranded {T : Type 0} (m : Mutex T) (f : ℕ) : Type 0 where
  pub says_queued : (w : Option ℕ) × (m.futures f ≡ some (record { queued = true; waker = w }))
  pub absent : occurs f m.waiters ≡ 0

module _ {T : Type 0} (vec : VecSeq ℕ) where
  -- The waiter that `drop_guard` on a valid mutex wakes is stranded: out of the queue, though its
  -- future says that it is queued.
  pub drop_guard_strands :
      (m m' : Mutex T) (f w : ℕ)
      → IsValid m
      → drop_guard vec m ≡ done (m', some (f, w))
      → IsStranded m' f
  drop_guard_strands m m' f w v e = elim (drop_guard_lem vec m v) [
    | inl (_, eq) ↦ absurd (cc)
    | inr (g, u, rest, q, h, eq, ok) ↦
        let same : record m { locked = false; waiters = rest } ≡ m' = cc in
        let whose : g ≡ f = cc in
        subst (λ x. IsStranded x f) same
          (record {
            says_queued = (
              some u,
              subst (λ x. m.futures x ≡ some (record { queued = true; waker = some u })) whose h,
            );
            absent = ground (arith, v.once f, q, whose);
          })
  ]

  -- What all tasks may do, except that the future at `f` is neither dropped nor gets the lock.
  pub data Step (f : ℕ) (m : Mutex T) : Mutex T → Type 0 where
    creates : (g : ℕ) → m.futures g ≡ none → Step f m (lock m g)
    waits : (g cx : ℕ) (m' : Mutex T) → poll vec m g cx ≡ done (m', pending) → Step f m m'
    acquires : (g cx : ℕ) (m' : Mutex T) → f ≢ g → poll vec m g cx ≡ done (m', ready) → Step f m m'
    drops : (g : ℕ) (m' : Mutex T) → f ≢ g → drop_future vec m g ≡ done m' → Step f m m'
    releases :
        (m' : Mutex T) (woken : Option (ℕ × ℕ)) → drop_guard vec m ≡ done (m', woken) → Step f m m'

  pub data Reach (f : ℕ) (m : Mutex T) : Mutex T → Type 0 where
    here : Reach f m m
    next : {t u : Mutex T} → Reach f m t → Step f t u → Reach f m u

  pub record Lost (f : ℕ) (m : Mutex T) : Type 0 where
    pub valid : IsValid m
    pub stranded : IsStranded m f

  waits-IsStranded :
      (f : ℕ) (m m' : Mutex T) (g cx : ℕ)
      → IsStranded m f
      → poll vec m g cx ≡ done (m', pending)
      → IsStranded m' f
  waits-IsStranded f m m' g cx l e =
      let (this, h) = poll_alive vec m g cx e in
      let (w, q) = l.says_queued in
      elim (poll_lem vec m g this h cx) [
        | inl (_, eq) ↦ absurd (cc)
        | inr (inl (taken, queued, eq)) ↦
            let same : parked vec m g cx ≡ m' = cc in
            subst (λ x. IsStranded x f) same
              (record {
                says_queued = elim (eq-cases g f) [
                  | inl mine ↦ (some cx, ground arith)
                  | inr other ↦ (w, ground arith)
                ];
                absent = l.absent;
              })
        | inr (inr (inl (taken, fresh, room, eq))) ↦
            let same : joined vec m g cx ≡ m' = cc in
            let other : g ≢ f = λ k. ground arith in
            subst (λ x. IsStranded x f) same
              (record {
                says_queued = (w, ground arith);
                absent = ground (arith, occurs-append f g m.waiters, l.absent);
              })
        | inr (inr (inr (_, _, _, eq))) ↦ absurd (cc)
      ]

  grants-IsStranded :
      (f : ℕ) (m m' : Mutex T) (g cx : ℕ)
      → f ≢ g
      → IsStranded m f
      → poll vec m g cx ≡ done (m', ready)
      → IsStranded m' f
  grants-IsStranded f m m' g cx ne l e =
      let (this, h) = poll_alive vec m g cx e in
      elim (poll_lem vec m g this h cx) [
        | inl (_, eq) ↦
            let same : granted vec m g this ≡ m' = cc in
            subst (λ x. IsStranded x f) same (kept this)
        | inr (inl (_, _, eq)) ↦ absurd (cc)
        | inr (inr (inl (_, _, _, eq))) ↦ absurd (cc)
        | inr (inr (inr (_, _, _, eq))) ↦ absurd (cc)
      ]
    where
      kept : (this : LockFuture) → IsStranded (granted vec m g this) f
      kept this =
          let (w, q) = l.says_queued in
          record {
            says_queued = (w, ground arith);
            absent = ground (arith, occurs-without vec g f m.waiters, l.absent);
          }

  Step-Lost : {f : ℕ} {m m' : Mutex T} → Step f m m' → Lost f m → Lost f m'
  unfolding lock
  Step-Lost {f} {m} (creates g gone) l =
      let (w, q) = l.stranded.says_queued in
      record {
        valid = lock-IsValid vec m g gone l.valid;
        stranded = record { says_queued = (w, ground arith); absent = l.stranded.absent };
      }
  Step-Lost {f} {m} (waits g cx m' e) l = record {
    valid = (pending_lem vec m m' g cx l.valid e).1;
    stranded = waits-IsStranded f m m' g cx l.stranded e;
  }
  Step-Lost {f} {m} (acquires g cx m' ne e) l = record {
    valid = (ready_lem vec m m' g cx l.valid e).1;
    stranded = grants-IsStranded f m m' g cx ne l.stranded e;
  }
  Step-Lost {f} {m} (drops g m' ne e) l =
      let (this, h) = drop_alive vec m g e in
      let (w, q) = l.stranded.says_queued in
      let same : dropped vec m g this ≡ m' =
        done_injective (sym (drop_future_lem vec m g this h) ∙ e) in
      record {
        valid = subst IsValid same (dropped-IsValid vec m g this h l.valid);
        stranded =
            subst (λ x. IsStranded x f) same
              (record {
                says_queued = (w, ground arith);
                absent = ground (arith, occurs-without vec g f m.waiters, l.stranded.absent);
              });
      }
  Step-Lost {f} {m} (releases m' woken e) l = record {
    valid = (release_lem vec m m' woken l.valid e).0;
    stranded = elim (drop_guard_lem vec m l.valid) [
      | inl (_, eq) ↦
          let same : record m { locked = false } ≡ m' = cc in
          subst (λ x. IsStranded x f) same
            (record { says_queued = l.stranded.says_queued; absent = l.stranded.absent })
      | inr (g, u, rest, q, h, eq, ok) ↦
          let same : record m { locked = false; waiters = rest } ≡ m' = cc in
          subst (λ x. IsStranded x f) same
            (record {
              says_queued = l.stranded.says_queued;
              absent = ground (arith, l.stranded.absent, q);
            })
    ];
  }

  -- In a valid mutex, a stranded future is never woken again until it gets the lock or is dropped:
  -- through any number of creations, pending polls, its own included, acquisitions by others, drops
  -- of others and releases it stays out of the queue, and no release calls its waker.
  pub IsStranded-forever :
      (f : ℕ) (m : Mutex T) {m' : Mutex T}
      → IsValid m
      → IsStranded m f
      → Reach f m m'
      → IsStranded m' f × ((u : Mutex T) (w : ℕ) → drop_guard vec m' ≢ done (u, some (f, w)))
  IsStranded-forever f m {m'} v l r =
      let lost = walk r (record { valid = v; stranded = l }) in (lost.stranded, never lost)
    where
      walk : {n : Mutex T} → Reach f m n → Lost f m → Lost f n
      walk here x = x
      walk (next p st) x = Step-Lost st (walk p x)

      never : Lost f m' → (u : Mutex T) (w : ℕ) → drop_guard vec m' ≢ done (u, some (f, w))
      never lost u w e = elim (drop_guard_lem vec m' lost.valid) [
        | inl (_, eq) ↦ cc
        | inr (h, k, rest, q, _, eq, _) ↦
            let whose : h ≡ f = cc in ground (arith, lost.stranded.absent, q, whose)
      ]
