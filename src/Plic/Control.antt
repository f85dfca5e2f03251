-- ===== src/Plic/Control.antt =====
-- The operations of plic_sifive.rs that write a register implement the abstract controller.
use rt_async.Base.{ap, ℕ, ◌+◌, ◌/◌, ◌^◌, ◌<◌, ◌≤◌, ◌≡◌, arith, ◌==◌, if◌then◌else◌, refl}
use rt_async.Device.{Bus}
use rt_async.Plic.{
  Plic, ctx_regs, priority_regs, enable_regs, enable_irq, disable_irq, set_priority, set_threshold,
}
use rt_async.Plic.Registers.{
  Register, priority_of, enable_of, threshold_of, address, IsRegister, Keeps,
}
use rt_async.Plic.Controller.{
  Wrote, Request, enabling, disabling, prioritising, masking, IsRequest, meant, target, view, word,
  Controller-path, priority_after, enabled_after, threshold_after,
}

module _ {S : Type 0} where
  -- The device does not reach past the end of the address space.
  abbrev pub IsPlaced : Plic S → Type 0
  IsPlaced p = (p.base + 0x4000000 ≤ 2 ^ 64) × (p.context < 15872)

  priority_regs-address :
      (p : Plic S) (irq : ℕ)
      → IsPlaced p
      → irq < 1024
      → priority_regs p irq ≡ address p.base (priority_of irq)
  unfolding priority_regs
  priority_regs-address p irq h hi = omega arith

  enable_regs-address :
      (p : Plic S) (irq : ℕ)
      → IsPlaced p
      → irq < 1024
      → enable_regs p irq ≡ address p.base (enable_of p.context (irq / 32))
  unfolding enable_regs
  enable_regs-address p irq h hi = omega arith

  ctx_regs-address :
      (p : Plic S) → IsPlaced p → ctx_regs p ≡ address p.base (threshold_of p.context)
  unfolding ctx_regs
  ctx_regs-address p h = omega arith

  module _ (bus : Bus S) where
    unfoldable pub perform : Plic S → Request → Plic S
    perform p (enabling irq) = enable_irq bus p irq
    perform p (disabling irq) = disable_irq bus p irq
    perform p (prioritising irq prio) = set_priority bus p irq prio
    perform p (masking thr) = set_threshold bus p thr

    module _ (peek : S → ℕ → ℕ) where
      module _ (Fits : Register → ℕ → Type 0) where
        target-IsRegister :
            (p : Plic S) (q : Request) → IsPlaced p → IsRequest q → IsRegister (target p.context q)
        target-IsRegister p (enabling irq) h hq = omega arith
        target-IsRegister p (disabling irq) h hq = omega arith
        target-IsRegister p (prioritising irq prio) h hq = hq
        target-IsRegister p (masking thr) h hq = h.1

        module _ (p : Plic S) (keeps : Keeps bus p.base peek Fits) (placed : IsPlaced p) where
          -- A request writes its word to its register, and nothing else.
          perform_lem :
              (q : Request)
              → IsRequest q
              → perform p q ≡ record p {
                hardware =
                    bus.write 32 p.hardware
                      (address p.base (target p.context q))
                      (word p.base p.context (peek p.hardware) q);
              }
          unfolding perform enable_irq disable_irq set_priority set_threshold
          perform_lem (enabling irq) hq =
              rw
                (
                  enable_regs-address p irq placed hq,
                  keeps.read_kept p.hardware (enable_of p.context (irq / 32))
                      (target-IsRegister p (enabling irq) placed hq),
                )
                refl
          perform_lem (disabling irq) hq =
              rw
                (
                  enable_regs-address p irq placed hq,
                  keeps.read_kept p.hardware (enable_of p.context (irq / 32))
                      (target-IsRegister p (disabling irq) placed hq),
                )
                refl
          perform_lem (prioritising irq prio) hq = rw (priority_regs-address p irq placed hq) refl
          perform_lem (masking thr) hq = rw (ctx_regs-address p placed) refl

          -- What is read at a register afterwards.
          peek-perform :
              (q : Request) (r : Register)
              → IsRequest q
              → Fits (target p.context q) (word p.base p.context (peek p.hardware) q)
              → IsRegister r
              → peek (perform p q).hardware (address p.base r) ≡ (
                  if address p.base (target p.context q) == address p.base r
                  then word p.base p.context (peek p.hardware) q
                  else peek p.hardware (address p.base r))
          peek-perform q r hq fits hr = rw (perform_lem q hq) (
              keeps.write_kept p.hardware (target p.context q)
                (word p.base p.context (peek p.hardware) q) r (target-IsRegister p q placed hq) hr
                fits)

          -- `enable_irq`, `disable_irq`, `set_priority` and `set_threshold`, on a device inside the
          -- address space whose registers keep what they are given, with an interrupt below 1024
          -- and a word that the register can hold: the controller that the registers stand for
          -- changes as meant, in one entry, and the statics stay.
          pub perform-meant :
              (q : Request)
              → IsRequest q
              → Fits (target p.context q) (word p.base p.context (peek p.hardware) q)
              → (view p.base (peek (perform p q).hardware)
                  ≡ meant p.context q (view p.base (peek p.hardware)))
                × ((perform p q).base ≡ p.base)
                × ((perform p q).context ≡ p.context)
                × ((perform p q).intc ≡ p.intc)
          perform-meant q hq fits =
              let wrote : Wrote p.base p.context (peek p.hardware) (peek (perform p q).hardware)
                  placed.1 q =
                λ r hr. peek-perform q r hq fits hr in
              (
                Controller-path
                    (priority_after p.base p.context (peek p.hardware) (peek (perform p q).hardware)
                      placed.1 q hq wrote)
                    (enabled_after p.base p.context (peek p.hardware) (peek (perform p q).hardware)
                      placed.1 q hq wrote (λ r hr. keeps.peek-lt p.hardware r hr))
                    (threshold_after p.base p.context (peek p.hardware)
                      (peek (perform p q).hardware) placed.1 q hq wrote),
                ap (λ x. x.base) (perform_lem q hq),
                ap (λ x. x.context) (perform_lem q hq),
                ap (λ x. x.intc) (perform_lem q hq),
              )
