-- ===== src/Plic/Service.antt =====
-- The external interrupt from end to end: `dispatch_external` of irq.rs on the controller of
-- plic_sifive.rs. The registered handlers are an argument, by their addresses.
use rt_async.Base.{
  ℕ, ◌+◌, ◌<◌, ◌≤◌, ◌≡◌, ◌≢◌, ◌⊎◌, inl, inr, List, [], ◌∷◌, some, refl, ◌∙◌, ap, eq-cases,
}
use rt_async.Base.Outcome.{Outcome, done, panic, ◌>>=◌, unwrap}
use rt_async.Device.{Bus}
use rt_async.Driver.{get_slot}
use rt_async.Irq.{Event, calls, completes, dispatch_external}
use rt_async.Irq.Dispatch.{dispatch_external_lem}
use rt_async.Plic.{Plic, ctx_regs, claim, complete}

module _ {S : Type 0} (bus : Bus S) (handler : ℕ → ℕ → S → S) where
  -- What the events of a dispatch do to the device
  unfoldable pub perform_all : List Event → Plic S → Plic S
  perform_all [] p = p
  perform_all (calls ptr irq ∷ events) p =
      perform_all events (record p { hardware = handler ptr irq p.hardware })
  perform_all (completes irq ∷ events) p = perform_all events (complete bus p irq)

  -- The interrupt that a claim answers
  abbrev pub claimed : Plic S → ℕ
  claimed p = (claim bus p).0

  unfoldable pub machine_external : (ℕ → ℕ) → Plic S → Outcome (Plic S)
  machine_external table p = do
    device ← unwrap (get_slot p.intc)
    events ← dispatch_external table (some (claimed p))
    done (perform_all events (claim bus p).1)

-- What the manual says of the claim register, for the list of interrupts that are claimed and not
-- completed, the last first: a claim adds its answer unless that is 0, and a completion takes the number out,
-- 0 being ignored.
pub record Serves {S : Type 0} (bus : Bus S) (at : ℕ) (serving : S → List ℕ) : Type 0 where
  pub claim_none : (s : S) → (bus.read 32 s at).0 ≡ 0 → serving (bus.read 32 s at).1 ≡ serving s
  pub claim_some :
      (s : S)
      → (bus.read 32 s at).0 ≢ 0
      → serving (bus.read 32 s at).1 ≡ (bus.read 32 s at).0 ∷ serving s
  pub complete_none : (s : S) → serving (bus.write 32 s at 0) ≡ serving s
  pub complete_last :
      (s : S) (irq : ℕ) (others : List ℕ)
      → irq ≢ 0
      → serving s ≡ irq ∷ others
      → serving (bus.write 32 s at irq) ≡ others

module _ {S : Type 0} (bus : Bus S) (handler : ℕ → ℕ → S → S) (serving : S → List ℕ) (p : Plic S)
    (serves : Serves bus (ctx_regs p + 4) serving)
    (kept : (ptr irq : ℕ) (s : S) → serving (handler ptr irq s) ≡ serving s) where
  -- What is being served after the claim, `s` being the device then or after a handler.
  After : S → Type 0
  After s =
      ((claimed bus handler p ≡ 0) × (serving s ≡ serving p.hardware))
      ⊎ ((claimed bus handler p ≢ 0) × (serving s ≡ claimed bus handler p ∷ serving p.hardware))

  claim_lem : After (claim bus p).1.hardware
  unfolding After claim
  claim_lem = elim (eq-cases (claimed bus handler p) 0) [
    | inl spurious ↦ inl (spurious, serves.claim_none p.hardware spurious)
    | inr real ↦ inr (real, serves.claim_some p.hardware real)
  ]

  handler_lem : (ptr irq : ℕ) (s : S) → After s → After (handler ptr irq s)
  unfolding After
  handler_lem ptr irq s (inl (spurious, same)) = inl (spurious, kept ptr irq s ∙ same)
  handler_lem ptr irq s (inr (real, last)) = inr (real, kept ptr irq s ∙ last)

  completed :
      (s : S)
      → After s
      → serving (complete bus (record p { hardware = s }) (claimed bus handler p)).hardware
        ≡ serving p.hardware
  unfolding After claim complete ctx_regs
  completed s (inl (spurious, same)) =
      ap (λ irq. serving (bus.write 32 s (ctx_regs p + 4) irq)) spurious
      ∙ serves.complete_none s
      ∙ same
  completed s (inr (real, last)) =
      serves.complete_last s (claimed bus handler p) (serving p.hardware) real last

  -- An external interrupt, with the controller in its slot, a device that claims and completes as
  -- documented, and handlers that leave it alone: if the interrupt that is claimed is past the
  -- table, it panics; otherwise it ends, and no interrupt is being served but those that were
  -- before, so that the controller can raise this one again.
  pub machine_external_lem :
      (table : ℕ → ℕ) (device : ℕ)
      → get_slot p.intc ≡ some device
      → ((96 ≤ claimed bus handler p) × (machine_external bus handler table p ≡ panic))
        ⊎ ((claimed bus handler p < 96)
            × ((p' : Plic S) × (machine_external bus handler table p ≡ done p')
                × (serving p'.hardware ≡ serving p.hardware)))
  unfolding machine_external perform_all claim
  machine_external_lem table device there =
      elim (dispatch_external_lem table (claimed bus handler p)) [
        | inl (past, e) ↦ inl (past, rw (there, e) refl)
        | inr (inl (inside, _, e)) ↦ inr (
          inside,
          (
            complete bus (claim bus p).1 (claimed bus handler p),
            rw (there, e) refl,
            completed (claim bus p).1.hardware claim_lem,
          ),
        )
        | inr (inr (inside, real, _, e)) ↦ inr (
          inside,
          (
            complete bus
                (record p {
                  hardware =
                      handler (table (claimed bus handler p)) (claimed bus handler p)
                        (claim bus p).1.hardware;
                })
                (claimed bus handler p),
            rw (there, e) refl,
            completed
                (handler (table (claimed bus handler p)) (claimed bus handler p)
                  (claim bus p).1.hardware)
                (handler_lem (table (claimed bus handler p)) (claimed bus handler p)
                  (claim bus p).1.hardware claim_lem),
          ),
        )
      ]
