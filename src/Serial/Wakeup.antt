-- ===== src/Serial/Wakeup.antt =====
-- The waker slot of serial_ns16550a.rs: a task that waits is woken by the next interrupt, and none
-- waits while there are bytes in the ring.
use rt_async.Base.{
  ℕ, ◌≡◌, ◌⊎◌, inl, inr, Option, none, some, List, [], ◌∷◌, refl, arith, ◌∙◌, sym, ap, subst,
}
use rt_async.Base.Outcome.{Outcome, panic, done, done_injective}
use rt_async.Serial.{
  RxState, RxStatus, ready, pending, new, rx_pop, rx_wake, rx_handler, register, interrupts,
  rx_register_waker, poll, SerialDevice, ns16550a, polled_only, device_register_waker,
}
use rt_async.Serial.Ring.{IsValid, contents, offers, rx_pop_lem, rx_drain_lem}

pub record Quiet (s : RxState) : Type 0 where
  pub ring : IsValid s
  pub slot :
      (s.has_waker ≡ 0) ⊎ ((w : ℕ) × (s.has_waker ≡ 1) × (s.waker ≡ some w) × (contents s ≡ []))

-- What is in the ring after the interrupts.
abbrev pub arrive : List ℕ → List (List ℕ) → List ℕ
arrive queue [] = queue
arrive queue (bytes ∷ later) = arrive (offers queue bytes) later

-- The waker that is registered is called, if there is one.
abbrev pub Wakes : RxState → Option ℕ → Type 0
Wakes s woken =
    ((s.has_waker ≡ 0) × (woken ≡ none))
    ⊎ ((w : ℕ) × (s.has_waker ≡ 1) × (s.waker ≡ some w) × (woken ≡ some w))

-- The interrupt handler, whatever bytes come, does not panic: the queue takes the bytes as far as it
-- has room, the waker that is registered is called, and the slot is empty afterwards.
pub rx_handler_lem :
    (s : RxState) (bytes : List ℕ)
    → Quiet s
    → (s' : RxState) × (woken : Option ℕ) × (rx_handler s bytes ≡ done (s', woken))
      × Quiet s'
      × (contents s' ≡ offers (contents s) bytes)
      × (s'.has_waker ≡ 0)
      × Wakes s woken
unfolding rx_handler rx_wake
rx_handler_lem s bytes q =
    let (s₁, e, v, c, h, w) = rx_drain_lem bytes s q.ring in
    elim q.slot [
      | inl empty ↦ (
        s₁,
        none,
        ground (arith, e, h, empty),
        record { ring = v; slot = inl (h ∙ empty) },
        c,
        h ∙ empty,
        inl (empty, refl),
      )
      | inr (k, up, is, _) ↦ (
        record s₁ { has_waker = 0; waker = none },
        some k,
        ground (arith, e, h, up, w, is),
        record { ring = record { head_in = v.head_in; tail_in = v.tail_in }; slot = inl refl },
        c,
        refl,
        inr (k, up, is, refl),
      )
    ]

-- The critical section of `rx_register_waker` does not panic. With an empty ring the caller's waker is
-- registered; otherwise the oldest byte is taken and no waker is registered.
pub register_lem :
    (s : RxState) (cx : ℕ)
    → Quiet s
    → (s' : RxState) × (status : RxStatus) × (register s cx ≡ done (s', status))
      × Quiet s'
      × (((contents s ≡ [])
            × (contents s' ≡ [])
            × (status ≡ pending)
            × (s'.has_waker ≡ 1)
            × (s'.waker ≡ some cx))
          ⊎ ((b : ℕ) × (status ≡ ready b) × (contents s ≡ b ∷ contents s') × (s'.has_waker ≡ 0)))
unfolding register
register_lem s cx q =
    let armed = record s { waker = some cx; has_waker = 1 } in
    elim (rx_pop_lem armed (record { head_in = q.ring.head_in; tail_in = q.ring.tail_in })) [
      | inl (empty, e) ↦ (
        armed,
        pending,
        ground (arith, e),
        record {
          ring = record { head_in = q.ring.head_in; tail_in = q.ring.tail_in };
          slot = inr (cx, refl, refl, empty);
        },
        inl (empty, empty, refl, refl, refl),
      )
      | inr (s₁, b, e, v, c, _, _) ↦ (
        record s₁ { has_waker = 0; waker = none },
        ready b,
        ground (arith, e),
        record { ring = record { head_in = v.head_in; tail_in = v.tail_in }; slot = inl refl },
        inr (b, refl, c, refl),
      )
    ]

interrupts_lem :
    (arrivals : List (List ℕ)) (s : RxState)
    → Quiet s
    → (s' : RxState) × (interrupts s arrivals ≡ done s')
      × Quiet s'
      × (contents s' ≡ arrive (contents s) arrivals)
unfolding interrupts
interrupts_lem [] s q = (s, refl, q, refl)
interrupts_lem (bytes ∷ later) s q =
    let (s₁, woken, e₁, q₁, c₁, _, _) = rx_handler_lem s bytes q in
    let (s₂, e₂, q₂, c₂) = interrupts_lem later s₁ q₁ in
    (s₂, ground (arith, e₁, e₂), q₂, c₂ ∙ ap (λ x. arrive x later) c₁)

-- The fast path keeps the slot: with a waker registered there is nothing to take.
pop-Quiet :
    (s : RxState)
    → Quiet s
    → ((contents s ≡ []) × (rx_pop s ≡ done (s, none)))
      ⊎ ((s' : RxState) × (b : ℕ) × (rx_pop s ≡ done (s', some b))
          × Quiet s'
          × (contents s ≡ b ∷ contents s'))
pop-Quiet s q = elim (rx_pop_lem s q.ring) [
  | inl stop ↦ inl stop
  | inr (s₁, b, e, v, c, h, w) ↦ elim q.slot [
    | inl empty ↦ inr (s₁, b, e, record { ring = v; slot = inl (h ∙ empty) }, c)
    | inr (k, _, _, none_left) ↦ absurd (cons-ne-nil (sym c ∙ none_left))
  ]
]
  where
    cons-ne-nil : {x : ℕ} {xs : List ℕ} → x ∷ xs ≡ [] → ⊥
    cons-ne-nil e = cc

-- The answer of a poll of `SerialRx`: the oldest byte in the ring; or, if the ring was empty, the first
-- of the bytes that came before the critical section; or none, with the waker registered, if none came.
abbrev pub Answers : RxState → ℕ → List (List ℕ) → RxState → Option ℕ → Type 0
Answers s cx arrivals s' answer =
    ((b : ℕ) × (answer ≡ some b) × (contents s ≡ b ∷ contents s'))
    ⊎ (((contents s ≡ []) × ((b : ℕ) × (answer ≡ some b) × (arrive [] arrivals ≡ b ∷ contents s')))
        ⊎ ((contents s ≡ [])
            × (arrive [] arrivals ≡ [])
            × (answer ≡ none)
            × (s'.has_waker ≡ 1)
            × (s'.waker ≡ some cx)))

poll_driver-Quiet :
    (s : RxState) (cx : ℕ) (arrivals : List (List ℕ))
    → Quiet s
    → (s' : RxState) × (answer : Option ℕ) × (poll (some ns16550a) s cx arrivals
        ≡ done (s', answer))
      × Quiet s'
      × Answers s cx arrivals s' answer
unfolding poll device_register_waker rx_register_waker
poll_driver-Quiet s cx arrivals q = elim (pop-Quiet s q) [
  | inr (s₁, b, e, q₁, c) ↦ (s₁, some b, ground (arith, e), q₁, inl (b, refl, c))
  | inl (empty, e) ↦
      let (s₁, e₁, q₁, c₁) = interrupts_lem arrivals s q in
      let (s₂, status, e₂, q₂, how) = register_lem s₁ cx q₁ in
      let came : arrive [] arrivals ≡ contents s₁ =
        ap (λ x. arrive x arrivals) (sym empty) ∙ sym c₁ in
      elim how [
        | inl (none_left, _, is, up, slot) ↦ (
          s₂,
          none,
          ground (arith, e, e₁, e₂, is),
          q₂,
          inr (inr (empty, came ∙ none_left, refl, up, slot)),
        )
        | inr (b, is, c, _) ↦
            (s₂, some b, ground (arith, e, e₁, e₂, is), q₂, inr (inl (empty, (b, refl, came ∙ c))))
      ]
]

-- A poll of `SerialRx`, while no task waits with bytes in the ring: it panics exactly if there is no
-- console. If the console has no interrupt-driven reception, it waits, and the ring and the waker slot
-- stay as they are. If it is this driver, then, whatever interrupts come between the two checks of the
-- ring, it does not panic, loses no byte that was taken into the ring, answers the oldest byte, and
-- waits only if there is none, with its waker registered.
pub poll-Quiet :
    (slot : Option SerialDevice) (s : RxState) (cx : ℕ) (arrivals : List (List ℕ))
    → Quiet s
    → ((slot ≡ none) × (poll slot s cx arrivals ≡ panic))
      ⊎ (((slot ≡ some polled_only) × (poll slot s cx arrivals ≡ done (s, none)))
          ⊎ ((slot ≡ some ns16550a)
              × ((s' : RxState) × (answer : Option ℕ) × (poll slot s cx arrivals
                    ≡ done (s', answer))
                  × Quiet s'
                  × Answers s cx arrivals s' answer)))
unfolding poll device_register_waker
poll-Quiet none s cx arrivals q = inl (refl, refl)
poll-Quiet (some polled_only) s cx arrivals q = inr (inl (refl, refl))
poll-Quiet (some ns16550a) s cx arrivals q = inr (inr (refl, poll_driver-Quiet s cx arrivals q))

-- What the interrupt and the tasks do, when it does not panic.
pub data Step (s s' : RxState) : Type 0 where
  handles : (bytes : List ℕ) (woken : Option ℕ) → rx_handler s bytes ≡ done (s', woken) → Step s s'
  takes : (byte : Option ℕ) → rx_pop s ≡ done (s', byte) → Step s s'
  registers : (cx : ℕ) (status : RxStatus) → register s cx ≡ done (s', status) → Step s s'

pub data Reach (s : RxState) : RxState → Type 0 where
  here : Reach s s
  next : {t u : RxState} → Reach s t → Step t u → Reach s u

same_state :
    {A : Type 0} {s t : RxState} {a b : A} {r : Outcome (RxState × A)}
    → r ≡ done (s, a)
    → r ≡ done (t, b)
    → Quiet s
    → Quiet t
same_state e e' q = subst Quiet (ap (λ x. x.0) (done_injective (sym e ∙ e'))) q

Step-Quiet : {s t : RxState} → Step s t → Quiet s → Quiet t
Step-Quiet {s} (handles bytes woken e) q =
    let (s₁, w, e₁, q₁, _, _, _) = rx_handler_lem s bytes q in same_state e₁ e q₁
Step-Quiet {s} (takes byte e) q = elim (pop-Quiet s q) [
  | inl (_, e₁) ↦ same_state e₁ e q
  | inr (s₁, b, e₁, q₁, _) ↦ same_state e₁ e q₁
]
Step-Quiet {s} (registers cx status e) q =
    let (s₁, r, e₁, q₁, _) = register_lem s cx q in same_state e₁ e q₁

new-Quiet : Quiet new
unfolding new
new-Quiet = record {
  ring = record { head_in = omega arith; tail_in = omega arith };
  slot = inl refl;
}

-- From the initial state, in every interleaving of interrupts, fast paths and critical sections: no
-- task waits with its waker registered while there are bytes in the ring.
pub Reach-Quiet : {s : RxState} → Reach new s → Quiet s
Reach-Quiet here = new-Quiet
Reach-Quiet (next r st) = Step-Quiet st (Reach-Quiet r)
