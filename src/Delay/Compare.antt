-- ===== src/Delay/Compare.antt =====
-- The compare register of timer.rs: it is never later than a deadline that waits in the queue.
use rt_async.Base.{
  ℕ, ◌≤◌, ◌<◌, ◌≡◌, ◌⊎◌, inl, inr, Bool, true, false, none, some, List, [], ◌∷◌, if◌then◌else◌, ltb,
  refl, arith, All, All-append, Bool-cases, lt-cases, update, Bool, length, ◌↔◌,
}
use rt_async.Base.Outcome.{Outcome, done, panic}
use rt_async.External.{VecSeq}
use rt_async.TimerQueue.{Entry, TimerQueue, schedule, cancel}
use rt_async.TimerQueue.Minimum.{try_schedule_lem, with_entry, IsNewEarliest}
use rt_async.TimerQueue.Drain.{total, Splits}
use rt_async.TimerQueue.Cancel.{cancel_lem}
use rt_async.Delay.{
  TimerDelay, Timers, ready, pending, wake_trampoline, Progress, Poll, answers, scheduled, enlist,
  begin_poll, drop_delay,
}

-- No deadline in the queue is earlier than the compare register.
abbrev pub Covers : ℕ → List Entry → Type 0
Covers c = All (λ (e : Entry). c ≤ e.deadline)

abbrev pub Armed : Timers → Type 0
Armed t = Covers t.compare t.queue.entries

-- 1 for an entry that is earlier than the register.
abbrev early : ℕ → Entry → ℕ
early c e = if ltb e.deadline c then 1 else 0

total-Covers : (c : ℕ) (es : List Entry) → Covers c es → total (early c) es ≡ 0
total-Covers c [] a = refl
total-Covers c (e ∷ es) a = ground (arith, a.0, total-Covers c es a.1)

Covers-total : (c : ℕ) (es : List Entry) → total (early c) es ≡ 0 → Covers c es
Covers-total c [] z = tt
Covers-total c (e ∷ es) z = (ground (arith, z), Covers-total c es (ground (arith, z)))

-- What covers a list covers each part of it.
pub part-Covers : (c : ℕ) (xs ys zs : List Entry) → Splits xs ys zs → Covers c zs → Covers c ys
part-Covers c xs ys zs splits a =
    Covers-total c ys (omega (arith, splits (early c), total-Covers c zs a))

Covers-weaken : (b c : ℕ) (es : List Entry) → b ≤ c → Covers c es → Covers b es
Covers-weaken b c [] h a = tt
Covers-weaken b c (e ∷ es) h a = (omega (arith, a.0), Covers-weaken b c es h a.1)

earlier-Covers :
    (d c : ℕ) (es : List Entry) → d < c → Covers c es → All (λ (e : Entry). d < e.deadline) es
earlier-Covers d c [] h a = tt
earlier-Covers d c (e ∷ es) h a = (omega (arith, a.0), earlier-Covers d c es h a.1)

later-Covers : (d : ℕ) (es : List Entry) → All (λ (e : Entry). d < e.deadline) es → Covers d es
later-Covers d [] a = tt
later-Covers d (e ∷ es) a = (omega (arith, a.0), later-Covers d es a.1)

module _ (vec : VecSeq Entry) where
  abbrev pub entry_for : ℕ → TimerDelay → Entry
  entry_for f delay = record { deadline = delay.deadline; callback = wake_trampoline; payload = f }

  -- The state after `schedule`
  abbrev pub enlisted : Timers → ℕ → ℕ → TimerDelay → Timers
  enlisted t f cx delay = record t {
    queue = with_entry vec t.queue (entry_for f delay);
    delays = update t.delays f (some (record delay { waker = some cx }));
  }

  -- An entry that is not the earliest is no earlier than what covers the others.
  enlisted-Covers :
      (c : ℕ) (t : Timers) (f cx : ℕ) (delay : TimerDelay)
      → (IsNewEarliest vec t.queue (entry_for f delay) → ⊥)
      → Covers c t.queue.entries
      → Covers c (enlisted t f cx delay).queue.entries
  enlisted-Covers c t f cx delay not_first a =
      All-append (λ e. c ≤ e.deadline) t.queue.entries _ a
        (
          elim (lt-cases delay.deadline c) [
            | inl below ↦
                absurd (not_first (earlier-Covers delay.deadline c t.queue.entries below a))
            | inr above ↦ above
          ],
          tt,
        )

  -- The earliest entry covers all.
  earliest-Covers :
      (t : Timers) (f cx : ℕ) (delay : TimerDelay)
      → IsNewEarliest vec t.queue (entry_for f delay)
      → Covers delay.deadline (enlisted t f cx delay).queue.entries
  earliest-Covers t f cx delay first =
      All-append (λ e. delay.deadline ≤ e.deadline) t.queue.entries _
        (later-Covers delay.deadline t.queue.entries first) (omega arith, tt)

  -- What `enlist` does: it panics on a full queue only.
  pub enlist_lem :
      (t : Timers) (f cx : ℕ) (delay : TimerDelay)
      → ((t.queue.limit ≤ length t.queue.entries) × (enlist vec t f cx delay ≡ panic))
        ⊎ ((answer : Bool) × (length t.queue.entries < t.queue.limit)
            × (enlist vec t f cx delay ≡ done (enlisted t f cx delay, answer))
            × ((answer ≡ true) ↔ IsNewEarliest vec t.queue (entry_for f delay)))
  unfolding enlist schedule
  enlist_lem t f cx delay = elim (try_schedule_lem vec t.queue (entry_for f delay)) [
    | inl (full, eq) ↦ inl (full, ground (arith, eq))
    | inr (answer, room, eq, iff) ↦ inr (answer, room, ground (arith, eq), iff)
  ]

  -- What `begin_poll` leaves: the queue as it was with an answer, or the delay in the queue, with a
  -- deadline that covers all if it is the earliest, and with what covered the others otherwise.
  abbrev pub Begun : Timers → TimerDelay → Outcome (Timers × Progress) → Type 0
  Begun t delay result =
      ((t' : Timers) × (answer : Poll) × (result ≡ done (t', answers answer))
        × (t'.queue ≡ t.queue)
        × (t'.compare ≡ t.compare))
      ⊎ (((t' : Timers) × (result ≡ done (t', scheduled true))
            × Covers delay.deadline t'.queue.entries
            × (t'.compare ≡ t.compare))
          ⊎ (((t' : Timers) × (result ≡ done (t', scheduled false))
                × ((c : ℕ) → Covers c t.queue.entries → Covers c t'.queue.entries)
                × (t'.compare ≡ t.compare))
              ⊎ ((t.queue.limit ≤ length t.queue.entries) × (result ≡ panic))))

  pub begin_poll_lem :
      (t : Timers) (f cx now : ℕ) (delay : TimerDelay)
      → t.delays f ≡ some delay
      → Begun t delay (begin_poll vec t f cx now)
  unfolding begin_poll
  begin_poll_lem t f cx now delay here = elim (lt-cases now delay.deadline) [
    | inr over ↦ inl (
      record t { delays = update t.delays f (some (record delay { registered = false })) },
      ready,
      ground (arith, here, over),
      refl,
      refl,
    )
    | inl before ↦ elim (Bool-cases delay.registered) [
      | inl in_queue ↦ inl (t, pending, ground (arith, here, before, in_queue), refl, refl)
      | inr fresh ↦ elim (enlist_lem t f cx delay) [
        | inl (full, eq) ↦ inr (inr (inr (full, ground (arith, here, before, fresh, eq))))
        | inr (true, room, eq, (first, _)) ↦ inr (
            inl (
              enlisted t f cx delay,
              ground (arith, here, before, fresh, eq),
              earliest-Covers t f cx delay (first refl),
              refl,
            ))
        | inr (false, room, eq, (_, last)) ↦ inr (
            inr (
              inl (
                enlisted t f cx delay,
                ground (arith, here, before, fresh, eq),
                λ c a. enlisted-Covers c t f cx delay (λ first. cc (last first)) a,
                refl,
              )))
      ]
    ]
  ]

  -- `cancel` takes entries out only.
  cancel-Covers :
      (c : ℕ) (q : TimerQueue) (payload : ℕ)
      → Covers c q.entries
      → (q' : TimerQueue) × (found : Bool) × (cancel vec q payload ≡ done (q', found))
        × Covers c q'.entries
  cancel-Covers c q payload a = elim (cancel_lem vec q payload) [
    | inl (_, eq) ↦ (q, false, eq, a)
    | inr (e, rest, _, eq, sum) ↦ (
      record q { entries = rest },
      true,
      eq,
      Covers-total c rest (omega (arith, sum (early c), total-Covers c q.entries a)),
    )
  ]

  pub drop_delay-Covers :
      (c : ℕ) (t : Timers) (f : ℕ) (delay : TimerDelay)
      → t.delays f ≡ some delay
      → Covers c t.queue.entries
      → (t' : Timers) × (drop_delay vec t f ≡ done t')
        × Covers c t'.queue.entries
        × (t'.compare ≡ t.compare)
  unfolding drop_delay
  drop_delay-Covers c t f delay here a = elim (Bool-cases delay.registered) [
    | inl in_queue ↦
        let (q, found, eq, kept) = cancel-Covers c t.queue f a in
        (
          record t { queue = q; delays = update t.delays f none },
          ground (arith, here, in_queue, eq),
          kept,
          refl,
        )
    | inr fresh ↦
        (record t { delays = update t.delays f none }, ground (arith, here, fresh), a, refl)
  ]
