-- ===== src/Irq/Dispatch.antt =====
-- The dispatch of irq.rs.
use rt_async.Base.{
  ℕ, ◌≡◌, ◌≢◌, ◌⊎◌, ◌<◌, ◌≤◌, inl, inr, some, [], ◌∷◌, arith, eq-cases, lt-cases, update,
}
use rt_async.Base.Outcome.{done, panic}
use rt_async.Irq.{calls, completes, register_irq, dispatch_external}

-- The dispatch of a claimed interrupt: a number past the table panics, before the interrupt is
-- completed. Otherwise it is completed exactly once, at the end, and the handler is called before that
-- exactly if the number is not 0 and one is registered.
pub dispatch_external_lem :
    (table : ℕ → ℕ) (irq : ℕ)
    → ((96 ≤ irq) × (dispatch_external table (some irq) ≡ panic))
      ⊎ (((irq < 96)
            × ((irq ≡ 0) ⊎ (table irq ≡ 0))
            × (dispatch_external table (some irq) ≡ done (completes irq ∷ [])))
          ⊎ ((irq < 96)
              × (irq ≢ 0)
              × (table irq ≢ 0)
              × (dispatch_external table (some irq)
                  ≡ done (calls (table irq) irq ∷ (completes irq ∷ [])))))
unfolding dispatch_external
dispatch_external_lem table irq = elim (lt-cases irq 96) [
  | inr past ↦ inl (past, ground (arith, past))
  | inl inside ↦ inr (elim (eq-cases irq 0) [
    | inl spurious ↦ inl (inside, inl spurious, ground (arith, spurious))
    | inr real ↦ elim (eq-cases (table irq) 0) [
      | inl off ↦ inl (inside, inr off, ground (arith, inside, real, off))
      | inr on ↦ inr (inside, real, on, ground (arith, inside, real, on))
    ]
  ])
]

-- After a handler is registered for an interrupt in the table, the dispatch of that interrupt calls this
-- handler and no other, whatever was registered before, and the dispatch of any other is as it was.
pub register_irq-dispatch_external :
    (table : ℕ → ℕ) (irq handler other : ℕ)
    → irq ≢ 0
    → irq < 96
    → handler ≢ 0
    → other ≢ irq
    → (table' : ℕ → ℕ) × (register_irq table irq handler ≡ done table')
      × (dispatch_external table' (some irq) ≡ done (calls handler irq ∷ (completes irq ∷ [])))
      × (dispatch_external table' (some other) ≡ dispatch_external table (some other))
unfolding dispatch_external register_irq
register_irq-dispatch_external table irq handler other real inside on ne = (
  update table irq handler,
  ground (arith, inside),
  ground (arith, inside, real, on),
  ground (arith, ne),
)
