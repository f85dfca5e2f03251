-- ===== src/Mutex/Polls.antt =====
-- What a poll of a lock future of mutex.rs means for the queue.
use rt_async.External.{VecSeq}
use rt_async.Mutex.{Mutex, LockFuture, ready, pending, poll}
use rt_async.Mutex.Waiters.{
  IsValid, occurs, poll_lem, granted, parked, joined, granted-IsValid, parked-IsValid,
  joined-IsValid, occurs-without, occurs-append,
}
use rt_async.Base.{
  ℕ, true, false, some, ◌≡◌, ◌≤◌, ◌⊎◌, inl, inr, ◌==◌, if◌then◌else◌, length, refl, arith,
}
use rt_async.Base.Outcome.{done, panic}

module _ {T : Type 0} (vec : VecSeq ℕ) (m : Mutex T) (f : ℕ) (this : LockFuture)
    (here : m.futures f ≡ some this) where
  -- The lock was free: the caller has it, and no longer stands in the queue.
  abbrev pub Gets : ℕ → Type 0
  Gets cx =
      (m' : Mutex T) × (m.locked ≡ false)
      × (poll vec m f cx ≡ done (m', ready))
      × IsValid m'
      × (m'.locked ≡ true)
      × ((g : ℕ) → occurs g m'.waiters ≡ (if f == g then 0 else occurs g m.waiters))

  -- The lock was taken: the caller's future holds its waker, and is in the queue unless it said before
  -- that it was queued, in which case the queue is as it was.
  abbrev pub Parks : ℕ → Type 0
  Parks cx =
      (m' : Mutex T) × (m.locked ≡ true)
      × (poll vec m f cx ≡ done (m', pending))
      × IsValid m'
      × (m'.locked ≡ true)
      × (m'.futures f ≡ some (record { queued = true; waker = some cx }))
      × (((this.queued ≡ true) × (m'.waiters ≡ m.waiters))
          ⊎ ((this.queued ≡ false) × (occurs f m'.waiters ≡ 1)))

  absent : IsValid m → this.queued ≡ false → occurs f m.waiters ≡ 0
  absent v fresh = ground (arith, v.waits f, here, fresh)

  -- Polling a live lock future of a valid mutex: if the lock is free, it is handed out and the future
  -- leaves the queue; if it is taken, the future parks, the mutex staying valid; and the poll panics
  -- only on a taken lock, for a future that is not queued, with the queue full.
  pub poll-IsValid :
      (cx : ℕ)
      → IsValid m
      → Gets cx
        ⊎ (Parks cx
            ⊎ ((m.locked ≡ true)
                × (this.queued ≡ false)
                × (m.limit ≤ length m.waiters)
                × (poll vec m f cx ≡ panic)))
  poll-IsValid cx v = elim (poll_lem vec m f this here cx) [
    | inl (free, eq) ↦ inl (
      granted vec m f this,
      free,
      eq,
      granted-IsValid vec m f this here v,
      ground arith,
      λ g. ground (arith, occurs-without vec f g m.waiters, absent v),
    )
    | inr (inl (taken, queued, eq)) ↦ inr (
        inl (
          parked vec m f cx,
          taken,
          eq,
          parked-IsValid vec m f this here v cx,
          taken,
          ground arith,
          inl (queued, refl),
        ))
    | inr (inr (inl (taken, fresh, room, eq))) ↦ inr (
        inl (
          joined vec m f cx,
          taken,
          eq,
          joined-IsValid vec m f this here v cx fresh room,
          taken,
          ground arith,
          inr (fresh, ground (arith, occurs-append f f m.waiters, absent v fresh)),
        ))
    | inr (inr (inr full)) ↦ inr (inr full)
  ]
