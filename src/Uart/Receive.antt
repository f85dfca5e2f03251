-- ===== src/Uart/Receive.antt =====
-- The interrupt handler of serial_ns16550a.rs with its device, against the handler of `Serial`, which is
-- given the bytes as a list.
use rt_async.Base.{
  ℕ, zero, suc, ◌+◌, ◌<◌, ◌≡◌, ◌≢◌, List, [], ◌∷◌, length, none, some, bit_and, arith, refl,
}
use rt_async.Base.Outcome.{done, ◌>>=◌}
use rt_async.Device.{Bus}
use rt_async.Serial.{RxState, rx_push, rx_drain, rx_wake}
use rt_async.Serial as Serial
use rt_async.Serial.Ring.{IsValid, rx_push_lem}
use rt_async.Uart.{Uart, regs, lsr_is_set, read, drain, rx_handler}

-- What the manual says of the receiver at these addresses. `fifo` is what it hands out until it has
-- nothing left.
pub record Receives {S : Type 0} (bus : Bus S) (r : ℕ) (fifo : S → List ℕ) : Type 0 where
  pub poll_empty :
      (s : S)
      → fifo s ≡ []
      → (bit_and (bus.read 8 s (r + 5)).0 0x01 ≡ 0) × (fifo (bus.read 8 s (r + 5)).1 ≡ [])
  pub poll_ready :
      (s : S) (byte : ℕ) (bytes : List ℕ)
      → fifo s ≡ byte ∷ bytes
      → (bit_and (bus.read 8 s (r + 5)).0 0x01 ≢ 0) × (fifo (bus.read 8 s (r + 5)).1 ≡ byte ∷ bytes)
  pub take_ready :
      (s : S) (byte : ℕ) (bytes : List ℕ)
      → fifo s ≡ byte ∷ bytes
      → ((bus.read 8 s r).0 ≡ byte) × (fifo (bus.read 8 s r).1 ≡ bytes)

module _ {S : Type 0} (bus : Bus S) (fifo : S → List ℕ) (r : ℕ) (probed : r ≢ 0)
    (receives : Receives bus r fifo) where
  -- `read` answers the oldest byte and takes it out, or none if there is none.
  read_empty :
      (u : Uart S)
      → u.base ≡ r
      → fifo u.hardware ≡ []
      → (u' : Uart S) × (read bus u ≡ done (u', none)) × (fifo u'.hardware ≡ []) × (u'.base ≡ r)
  unfolding read regs lsr_is_set
  read_empty u at empty =
      let (down, still) = receives.poll_empty u.hardware empty in
      (
        record u { hardware = (bus.read 8 u.hardware (r + 5)).1 },
        ground (arith, at, down),
        still,
        at,
      )

  read_ready :
      (u : Uart S) (byte : ℕ) (bytes : List ℕ)
      → u.base ≡ r
      → fifo u.hardware ≡ byte ∷ bytes
      → (u' : Uart S) × (read bus u ≡ done (u', some byte))
        × (fifo u'.hardware ≡ bytes)
        × (u'.base ≡ r)
  unfolding read regs lsr_is_set
  read_ready u byte bytes at full =
      let (up, still) = receives.poll_ready u.hardware byte bytes full in
      let (is, left) = receives.take_ready (bus.read 8 u.hardware (r + 5)).1 byte bytes still in
      (
        record u { hardware = (bus.read 8 (bus.read 8 u.hardware (r + 5)).1 r).1 },
        ground (arith, at, up, is),
        left,
        at,
      )

  drain_lem :
      (bytes : List ℕ) (fuel : ℕ) (u : Uart S) (rx : RxState)
      → IsValid rx
      → u.base ≡ r
      → fifo u.hardware ≡ bytes
      → length bytes < fuel
      → (u' : Uart S) × (rx' : RxState) × (drain bus fuel u rx ≡ some (done (u', rx')))
        × (rx_drain rx bytes ≡ done rx')
        × (fifo u'.hardware ≡ [])
        × (u'.base ≡ r)
  unfolding drain rx_drain
  drain_lem bytes zero u rx v at full h = absurd (omega arith)
  drain_lem [] (suc fuel) u rx v at full h =
      let (u', e, left, at') = read_empty u at full in (u', rx, ground (arith, e), refl, left, at')
  drain_lem (byte ∷ bytes) (suc fuel) u rx v at full h =
      let (u₁, e₁, left₁, at₁) = read_ready u byte bytes at full in
      let (rx₁, p₁, v₁, _, _, _) = rx_push_lem rx byte v in
      let (u₂, rx₂, e₂, p₂, left₂, at₂) = drain_lem bytes fuel u₁ rx₁ v₁ at₁ left₁ (omega arith) in
      (u₂, rx₂, ground (arith, e₁, p₁, e₂), ground (arith, p₁, p₂), left₂, at₂)

  -- The interrupt handler on a probed device that hands out its bytes as documented, with a valid
  -- ring and more fuel than bytes: it ends, the device has nothing left, and the ring and the waker
  -- are those of the handler that is given the bytes as a list.
  pub rx_handler-eq :
      (fuel : ℕ) (u : Uart S) (rx : RxState)
      → IsValid rx
      → u.base ≡ r
      → length (fifo u.hardware) < fuel
      → (u' : Uart S) × (rx_handler bus fuel u rx
          ≡ some (Serial.rx_handler rx (fifo u.hardware) >>= λ p. done (u', p.0, p.1)))
        × (fifo u'.hardware ≡ [])
        × (u'.base ≡ r)
  unfolding rx_handler Serial.rx_handler
  rx_handler-eq fuel u rx v at h =
      let (u', rx', e, p, left, at') = drain_lem (fifo u.hardware) fuel u rx v at refl h in
      (u', rw (e, rx_handler) (rw (p, Serial.rx_handler) refl), left, at')
