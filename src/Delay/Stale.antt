-- ===== src/Delay/Stale.antt =====
-- A delay of timer.rs that is ready before the interrupt has fired its entry: `poll` lowers
-- `registered`, so `Drop` does not cancel the entry.
use rt_async.Base.{
  ℕ, ◌≤◌, ◌<◌, ◌≡◌, inl, inr, false, Option, none, some, List, [], ◌∷◌, refl, arith, Option-cases,
  ◌==◌, if◌then◌else◌, leb, update, eq-cases, ==_refl,
}
use rt_async.Base.Outcome.{done, panic}
use rt_async.External.{VecSeq}
use rt_async.TimerQueue.{Entry}
use rt_async.TimerQueue.Drain.{total, Pending, dequeue_expired_lem}
use rt_async.Delay.{TimerDelay, Timers, ready, begin_poll, poll, drop_delay, fire, handle_timer_isr}

-- 1 for an entry of the delay at `f` that has expired.
abbrev pub due : ℕ → ℕ → Entry → ℕ
due f now e = if e.payload == f then (if leb e.deadline now then 1 else 0) else 0

total-Pending : (f now : ℕ) (es : List Entry) → Pending now es → total (due f now) es ≡ 0
total-Pending f now [] p = refl
total-Pending f now (e ∷ es) p = ground (arith, p.0, total-Pending f now es p.1)

module _ (vec : VecSeq Entry) where
  -- Firing an entry whose delay is dropped reads a pointer to it.
  fire_dropped :
      (delays : ℕ → Option TimerDelay) (f now : ℕ) (es : List Entry)
      → delays f ≡ none
      → 0 < total (due f now) es
      → fire vec delays es ≡ panic
  unfolding fire
  fire_dropped delays f now [] gone h = absurd (omega arith)
  fire_dropped delays f now (e ∷ es) gone h = elim (Option-cases (delays e.payload)) [
    | inl off ↦ ground (arith, off)
    | inr (d, on) ↦ elim (eq-cases e.payload f) [
      | inl same ↦ absurd (cc)
      | inr other ↦ ground (arith, on, fire_dropped delays f now es gone (ground (arith, h, other)))
    ]
  ]

  -- A delay that is polled at its deadline while its entry is still queued is ready; when it is then
  -- dropped its entry stays in the queue, and the timer interrupt at that time reads the dropped delay.
  pub stale_entry_lem :
      (t : Timers) (f cx now : ℕ) (delay : TimerDelay)
      → t.delays f ≡ some delay
      → delay.deadline ≤ now
      → 0 < total (due f now) t.queue.entries
      → (t₁ t₂ : Timers) × (poll vec t f cx now ≡ done (t₁, ready))
        × (drop_delay vec t₁ f ≡ done t₂)
        × (t₂.queue ≡ t.queue)
        × (handle_timer_isr vec t₂ now ≡ panic)
  unfolding poll begin_poll drop_delay handle_timer_isr
  stale_entry_lem t f cx now delay here over queued =
      let t₁ : Timers = record t {
        delays = update t.delays f (some (record delay { registered = false }));
      } in
      let t₂ : Timers = record t { delays = update t₁.delays f none } in
      let (fired, left, next, eq, ex, pe, sp, _) = dequeue_expired_lem vec t.queue now in
      let reads =
        fire_dropped t₂.delays f now fired (rw ==_refl refl)
          (omega (arith, sp (due f now), total-Pending f now left pe)) in
      (t₁, t₂, ground (arith, here, over), ground arith, refl, rw eq (ground (arith, reads)))
