-- ===== src/Uart.antt =====
-- The device side of modules/platform/src/drivers/serial_ns16550a.rs: writing, reading and the loop of
-- the interrupt handler. The static `BASE` and the hardware are one record; the ring that the handler
-- fills is that of `Serial`. Each waiting loop is a recursion on fuel, and `none` means that it ran out.
pub mod Transmit
pub mod Receive
mod Tests
use rt_async.Base.{
  ℕ, zero, suc, ◌+◌, ◌==◌, if◌then◌else◌, Bool, true, false, not, List, [], ◌∷◌, Option, none, some,
  bit_and,
}
use rt_async.Base.Outcome.{Outcome, done, panic, ◌>>=◌}
use rt_async.Device.{Bus, first_reg}
use rt_async.Serial
use rt_async.Serial.{RxState, rx_push, rx_wake}

pub record Uart (S : Type 0) : Type 0 where
  pub base : ℕ
  pub hardware : S

-- The bits of the line status register
abbrev pub lsr_dr : ℕ
lsr_dr = 0x01

abbrev pub lsr_thre : ℕ
lsr_thre = 0x20

module _ {S : Type 0} where
  -- The address of the registers; the assertion fails before `probe`.
  unfoldable pub regs : Uart S → Outcome ℕ
  regs u = if u.base == 0 then panic else done u.base

  module _ (bus : Bus S) where
    -- `r.lsr.is_set(..)`
    unfoldable pub lsr_is_set : ℕ → S → ℕ → Bool × S
    lsr_is_set r s bits =
        let (lsr, s') = bus.read 8 s (r + 5) in (if bit_and lsr bits == 0 then false else true, s')

    -- The loop that waits for room, in the body of `write`.
    unfoldable pub wait_thre : ℕ → ℕ → S → Option S
    wait_thre zero r s = none
    wait_thre (suc fuel) r s =
        let (room, s') = lsr_is_set r s lsr_thre in
        let rest = wait_thre fuel r s' in if room then some s' else rest

    unfoldable pub write_bytes : ℕ → ℕ → S → List ℕ → Option S
    write_bytes fuel r s [] = some s
    write_bytes fuel r s (byte ∷ buf) = elim (wait_thre fuel r s) [
      | none ↦ none
      | some s' ↦ write_bytes fuel r (bus.write 8 s' r byte) buf
    ]

    unfoldable pub write : ℕ → Uart S → List ℕ → Option (Outcome (Uart S))
    write fuel u buf = elim (regs u) [
      | panic ↦ some panic
      | done r ↦ elim (write_bytes fuel r u.hardware buf) [
        | none ↦ none
        | some s ↦ some (done (record u { hardware = s }))
      ]
    ]

    unfoldable pub read : Uart S → Outcome (Uart S × Option ℕ)
    read u = do
      r ← regs u
      (let (ready, s) = lsr_is_set r u.hardware lsr_dr in
          let (byte, s') = bus.read 8 s r in
          done (
            if ready
            then (record u { hardware = s' }, some byte)
            else (record u { hardware = s }, none)))

    unfoldable pub has_data : Uart S → Outcome (Uart S × Bool)
    has_data u = do
      r ← regs u
      (let (ready, s) = lsr_is_set r u.hardware lsr_dr in done (record u { hardware = s }, ready))

    -- The loop of `rx_handler`
    unfoldable pub drain : ℕ → Uart S → RxState → Option (Outcome (Uart S × RxState))
    drain zero u rx = none
    drain (suc fuel) u rx = elim (read u) [
      | panic ↦ some panic
      | done (u', none) ↦ some (done (u', rx))
      | done (u', some byte) ↦ elim (rx_push rx byte) [
        | panic ↦ some panic
        | done rx' ↦ drain fuel u' rx'
      ]
    ]

    unfoldable pub rx_handler :
        ℕ → Uart S → RxState → Option (Outcome (Uart S × RxState × Option ℕ))
    rx_handler fuel u rx = elim (drain fuel u rx) [
      | none ↦ none
      | some panic ↦ some panic
      | some (done (u', rx')) ↦ some (do (rx'', woken) ← rx_wake rx'; done (u', rx'', woken))
    ]

    -- The device side of `probe`: the FIFOs are enabled and cleared, the receive interrupt is enabled, the
    -- line is set to eight bits; then the ring is reset.
    unfoldable pub probe : Uart S → RxState → Option (List ℕ) → Outcome (Uart S × RxState)
    probe u rx reg = do
      base ← first_reg reg
      r ← regs (record u { base = base })
      (let fifo = bus.write 8 u.hardware (r + 2) 0x07 in
          let irq = bus.write 8 fifo (r + 1) 0x01 in
          let line = bus.write 8 irq (r + 3) 0x03 in
          done (record { base = base; hardware = line }, Serial.probe rx))
