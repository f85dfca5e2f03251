-- ===== src/Delay/Handler.antt =====
-- The timer interrupt of timer.rs.
use rt_async.Base.{
  ℕ, ◌≡◌, ◌≢◌, inl, inr, Option, none, some, List, [], ◌∷◌, refl, arith, All, ◌∙◌, sym, ap, subst,
  Option-cases,
}
use rt_async.Base.Outcome.{Outcome-cases, done, done_injective, done-ne-panic}
use rt_async.External.{VecSeq}
use rt_async.TimerQueue.{Entry}
use rt_async.TimerQueue.Minimum.{Minimum}
use rt_async.TimerQueue.Drain.{total, Expired, Pending, Splits, dequeue_expired_lem}
use rt_async.Delay.{TimerDelay, Timers, far, fire, handle_timer_isr}
use rt_async.Delay.Compare.{Covers, Armed, part-Covers}

-- The delays of all entries are alive.
abbrev pub Alive : (ℕ → Option TimerDelay) → List Entry → Type 0
Alive delays = All (λ (e : Entry). delays e.payload ≢ none)

-- The wakers of the delays of these entries.
abbrev pub wakers : (ℕ → Option TimerDelay) → List Entry → List ℕ
wakers delays [] = []
wakers delays (e ∷ es) = elim (delays e.payload) [
  | none ↦ wakers delays es
  | some d ↦ elim d.waker [ none ↦ wakers delays es | some w ↦ w ∷ wakers delays es ]
]

-- 1 for an entry whose delay is gone.
abbrev pub gone : (ℕ → Option TimerDelay) → Entry → ℕ
gone delays e = elim (delays e.payload) [ none ↦ 1 | some d ↦ 0 ]

total-Alive :
    (delays : ℕ → Option TimerDelay) (es : List Entry)
    → Alive delays es
    → total (gone delays) es ≡ 0
total-Alive delays [] a = refl
total-Alive delays (e ∷ es) a = elim (Option-cases (delays e.payload)) [
  | inl off ↦ absurd (a.0 off)
  | inr (d, on) ↦ ground (arith, on, total-Alive delays es a.1)
]

compare_lem :
    (left : List Entry) (next : Option ℕ)
    → Minimum left next
    → Covers (elim next [ none ↦ far | some d ↦ d ]) left
compare_lem left next (inl (empty, is)) = rw empty tt
compare_lem left next (inr (d, is, (low, at))) = rw is low

module _ (vec : VecSeq Entry) where
  fire_lem :
      (delays : ℕ → Option TimerDelay) (es : List Entry)
      → total (gone delays) es ≡ 0
      → fire vec delays es ≡ done (wakers delays es)
  unfolding fire
  fire_lem delays [] z = refl
  fire_lem delays (e ∷ es) z = elim (Option-cases (delays e.payload)) [
    | inl off ↦ absurd (ground (arith, z, off))
    | inr (d, on) ↦
        let rest = fire_lem delays es (ground (arith, z)) in
        elim (Option-cases d.waker) [
          | inl quiet ↦ ground (arith, on, quiet, rest)
          | inr (w, set) ↦ ground (arith, on, set, rest)
        ]
  ]

  -- The timer interrupt, while the delays of all entries are alive, does not panic: exactly the expired
  -- entries leave the queue and their wakers are called, in order, and the compare register is then not
  -- later than any deadline that is left.
  pub handle_timer_isr_lem :
      (t : Timers) (now : ℕ)
      → Alive t.delays t.queue.entries
      → (fired left : List Entry) × (t' : Timers) × (handle_timer_isr vec t now
          ≡ done (t', wakers t.delays fired))
        × (t'.queue.entries ≡ left)
        × Expired now fired
        × Pending now left
        × Splits fired left t.queue.entries
        × Armed t'
  unfolding handle_timer_isr
  handle_timer_isr_lem t now a =
      let (fired, left, next, eq, ex, pe, sp, least) = dequeue_expired_lem vec t.queue now in
      let quiet =
        fire_lem t.delays fired
          (omega (arith, sp (gone t.delays), total-Alive t.delays t.queue.entries a)) in
      (
        fired,
        left,
        record t {
          queue = record t.queue { entries = left };
          compare = (elim next [ none ↦ far | some d ↦ d ]);
        },
        rw eq (ground (arith, quiet)),
        refl,
        ex,
        pe,
        sp,
        compare_lem left next least,
      )

  -- When the interrupt does not panic, the register is armed, and what covered the queue still does.
  pub handle_timer_isr-Armed :
      (t t' : Timers) (now : ℕ) (woken : List ℕ)
      → handle_timer_isr vec t now ≡ done (t', woken)
      → Armed t' × ((c : ℕ) → Covers c t.queue.entries → Covers c t'.queue.entries)
  unfolding handle_timer_isr
  handle_timer_isr-Armed t t' now woken e =
      let (fired, left, next, eq, ex, pe, sp, least) = dequeue_expired_lem vec t.queue now in
      let after : Timers = record t {
        queue = record t.queue { entries = left };
        compare = (elim next [ none ↦ far | some d ↦ d ]);
      } in
      elim (Outcome-cases (fire vec t.delays fired)) [
        | inl stop ↦ absurd (done-ne-panic e (rw eq (ground (arith, stop))))
        | inr (ws, quiet) ↦
            let got : handle_timer_isr vec t now ≡ done (after, ws) =
              rw eq (ground (arith, quiet)) in
            subst (λ u. Armed u × ((c : ℕ) → Covers c t.queue.entries → Covers c u.queue.entries))
              (ap (λ x. x.0) (done_injective (sym got ∙ e)))
              (compare_lem left next least, λ c. part-Covers c fired left t.queue.entries sp)
      ]
