-- ===== src/Irq/Latch.antt =====
-- The latch of irq.rs: no task waits while an interrupt is pending, and none is lost.
use rt_async.Base.{
  ℕ, zero, suc, ◌≡◌, ◌⊎◌, inl, inr, Option, none, some, refl, arith, ◌∙◌, sym, ap, subst, ◌<◌,
}
use rt_async.Base.Outcome.{done, done_injective}
use rt_async.Irq.{IrqLatch, Poll, is_ready, is_pending, new, notify, notifies, register, poll}

-- The flags are 0 or 1, and a task that waits has its waker in the slot while nothing is pending.
pub record IsValid (l : IrqLatch) : Type 0 where
  pub flag : (l.pending ≡ 0) ⊎ (l.pending ≡ 1)
  pub slot :
      (l.has_waker ≡ 0) ⊎ ((w : ℕ) × (l.has_waker ≡ 1) × (l.waker ≡ some w) × (l.pending ≡ 0))

-- `notify` on a valid latch does not panic: afterwards the interrupt is pending and nobody waits, and
-- the task that waited, if any, is the one that is woken.
pub notify_lem :
    (l : IrqLatch)
    → IsValid l
    → (l' : IrqLatch) × (woken : Option ℕ) × (notify l ≡ done (l', woken))
      × IsValid l'
      × (l'.pending ≡ 1)
      × (l'.has_waker ≡ 0)
      × (((l.has_waker ≡ 0) × (woken ≡ none))
          ⊎ ((w : ℕ) × (l.has_waker ≡ 1) × (l.waker ≡ some w) × (woken ≡ some w)))
unfolding notify
notify_lem l v = elim v.slot [
  | inl empty ↦ (
    record l { pending = 1 },
    none,
    ground (arith, empty),
    record { flag = inr refl; slot = inl empty },
    refl,
    empty,
    inl (empty, refl),
  )
  | inr (w, up, is, _) ↦ (
    record { pending = 1; has_waker = 0; waker = none },
    some w,
    ground (arith, up, is),
    record { flag = inr refl; slot = inl refl },
    refl,
    refl,
    inr (w, up, is, refl),
  )
]

notifies_lem :
    (n : ℕ) (l : IrqLatch)
    → IsValid l
    → (l' : IrqLatch) × (notifies l n ≡ done l')
      × IsValid l'
      × (((n ≡ 0) × (l' ≡ l)) ⊎ ((0 < n) × (l'.pending ≡ 1)))
unfolding notifies
notifies_lem zero l v = (l, refl, v, inl (refl, refl))
notifies_lem (suc n) l v =
    let (l₁, woken, e₁, v₁, p₁, _, _) = notify_lem l v in
    let (l₂, e₂, v₂, how) = notifies_lem n l₁ v₁ in
    (
      l₂,
      ground (arith, e₁, e₂),
      v₂,
      elim how [
        | inl (_, same) ↦ inr (omega arith, ap (λ x. x.pending) same ∙ p₁)
        | inr (_, p₂) ↦ inr (omega arith, p₂)
      ],
    )

-- The part of `poll` with interrupts off, on a valid latch: a pending interrupt is consumed, and
-- otherwise the caller waits with its waker in the slot.
pub register_lem :
    (l : IrqLatch) (cx : ℕ)
    → IsValid l
    → (l' : IrqLatch) × (answer : Poll) × (register l cx ≡ (l', answer))
      × IsValid l'
      × (l'.pending ≡ 0)
      × (((l.pending ≡ 1) × (answer ≡ is_ready) × (l'.has_waker ≡ 0))
          ⊎ ((l.pending ≡ 0) × (answer ≡ is_pending) × (l'.has_waker ≡ 1) × (l'.waker ≡ some cx)))
unfolding register
register_lem l cx v = elim v.flag [
  | inl off ↦ (
    record l { has_waker = 1; waker = some cx },
    is_pending,
    ground (arith, off),
    record { flag = inl off; slot = inr (cx, refl, refl, off) },
    off,
    inr (off, refl, refl, refl),
  )
  | inr on ↦ (
    record { pending = 0; has_waker = 0; waker = none },
    is_ready,
    ground (arith, on),
    record { flag = inl refl; slot = inl refl },
    refl,
    inl (on, refl, refl),
  )
]

-- A poll of a valid latch, whatever number of interrupts comes between its two checks, does not panic
-- and leaves nothing pending: it is ready if an interrupt was pending or came, and otherwise the caller
-- waits with its waker in the slot.
pub poll-IsValid_of_latch :
    (l : IrqLatch) (cx arrivals : ℕ)
    → IsValid l
    → (l' : IrqLatch) × (answer : Poll) × (poll l cx arrivals ≡ done (l', answer))
      × IsValid l'
      × (l'.pending ≡ 0)
      × ((((l.pending ≡ 1) ⊎ (0 < arrivals)) × (answer ≡ is_ready))
          ⊎ ((l.pending ≡ 0)
              × (arrivals ≡ 0)
              × (answer ≡ is_pending)
              × (l'.has_waker ≡ 1)
              × (l'.waker ≡ some cx)))
unfolding poll
poll-IsValid_of_latch l cx arrivals v = elim v.flag [
  | inr on ↦ (
    record l { pending = 0 },
    is_ready,
    ground (arith, on),
    record {
      flag = inl refl;
      slot = (elim v.slot [ inl empty ↦ inl empty | inr (w, up, is, _) ↦ inr (w, up, is, refl) ]);
    },
    refl,
    inl (inl on, refl),
  )
  | inl off ↦
      let (l₁, e₁, v₁, how) = notifies_lem arrivals l v in
      let (l₂, answer, e₂, v₂, p₂, what) = register_lem l₁ cx v₁ in
      (
        l₂,
        answer,
        ground (arith, off, e₁, e₂),
        v₂,
        p₂,
        elim how [
          | inl (none_came, same) ↦ elim what [
            | inl (on, _, _) ↦ absurd (omega (arith, ap (λ x. x.pending) same))
            | inr (_, is, up, slot) ↦ inr (off, none_came, is, up, slot)
          ]
          | inr (came, p₁) ↦ elim what [
            | inl (_, is, _) ↦ inl (inr came, is)
            | inr (p₀, _, _, _) ↦ absurd (omega arith)
          ]
        ],
      )
]

-- What interrupts and tasks do, when it does not panic.
pub data Step (l l' : IrqLatch) : Type 0 where
  interrupts : (woken : Option ℕ) → notify l ≡ done (l', woken) → Step l l'
  polls : (cx arrivals : ℕ) (answer : Poll) → poll l cx arrivals ≡ done (l', answer) → Step l l'

pub data Reach (l : IrqLatch) : IrqLatch → Type 0 where
  here : Reach l l
  next : {m n : IrqLatch} → Reach l m → Step m n → Reach l n

Step-IsValid : {l l' : IrqLatch} → Step l l' → IsValid l → IsValid l'
Step-IsValid {l} (interrupts woken e) v =
    let (l₁, w, e₁, v₁, _, _, _) = notify_lem l v in
    subst IsValid (ap (λ x. x.0) (done_injective (sym e₁ ∙ e))) v₁
Step-IsValid {l} (polls cx arrivals answer e) v =
    let (l₁, a, e₁, v₁, _, _) = poll-IsValid_of_latch l cx arrivals v in
    subst IsValid (ap (λ x. x.0) (done_injective (sym e₁ ∙ e))) v₁

new-IsValid : IsValid new
unfolding new
new-IsValid = record { flag = inl refl; slot = inl refl }

-- From the new latch, in every interleaving of interrupts and polls: no task waits with its waker in
-- the slot while an interrupt is pending.
pub Reach-IsValid : {l : IrqLatch} → Reach new l → IsValid l
Reach-IsValid here = new-IsValid
Reach-IsValid (next r st) = Step-IsValid st (Reach-IsValid r)
