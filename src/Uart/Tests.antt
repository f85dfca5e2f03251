-- ===== src/Uart/Tests.antt =====
-- Runs of the device side of serial_ns16550a.rs.
use rt_async.Base.{
  ap, ℕ, zero, suc, ◌+◌, ◌<◌, ◌≤◌, ◌≡◌, ◌≢◌, ◌==◌, if◌then◌else◌, List, [], ◌∷◌, ◌++◌, none, some,
  bit_and, arith, refl,
}
use rt_async.Base.Outcome.{done, panic, ◌>>=◌}
use rt_async.Device.{Bus}
use rt_async.Serial.{RxState}
use rt_async.Serial as Serial
use rt_async.Serial.Ring.{IsValid}
use rt_async.Uart.{Uart, regs, lsr_is_set, wait_thre, write_bytes, write, rx_handler}
use rt_async.Uart.Transmit.{Transmits, write_lem}
use rt_async.Uart.Receive.{Receives, rx_handler-eq}

-- A line: the polls until there is room, what was sent, and what has arrived.
record Line : Type 0 where
  busy : ℕ
  sent : List ℕ
  fifo : List ℕ

abbrev first_of : List ℕ → ℕ
first_of [] = 0
first_of (b ∷ bs) = b

abbrev rest_of : List ℕ → List ℕ
rest_of [] = []
rest_of (b ∷ bs) = bs

abbrev ready_bit : List ℕ → ℕ
ready_bit [] = 0
ready_bit (b ∷ bs) = 1

abbrev room_bit : ℕ → ℕ
room_bit zero = 32
room_bit (suc n) = 0

abbrev one_less : ℕ → ℕ
one_less zero = 0
one_less (suc n) = n

-- Registers at address 16. The transmitter is busy for two polls after each byte.
abbrev line : Bus Line
line = record {
  read = λ w s a.
      if a == 21
      then (room_bit s.busy + ready_bit s.fifo, record s { busy = one_less s.busy })
      else (first_of s.fifo, record s { fifo = rest_of s.fifo });
  write = λ w s a v. record s { busy = 2; sent = s.sent ++ (v ∷ []) };
}

bits_busy : (n : ℕ) (fifo : List ℕ) → 0 < n → bit_and (room_bit n + ready_bit fifo) 0x20 ≡ 0
bits_busy zero fifo h = absurd (omega arith)
bits_busy (suc n) [] h = refl
bits_busy (suc n) (b ∷ bs) h = refl

bits_free : (n : ℕ) (fifo : List ℕ) → n ≡ 0 → bit_and (room_bit n + ready_bit fifo) 0x20 ≢ 0
bits_free zero [] h e = absurd (omega arith)
bits_free zero (b ∷ bs) h e = absurd (omega arith)
bits_free (suc n) fifo h e = absurd (omega arith)

one_less-lt : (n : ℕ) → 0 < n → one_less n < n
one_less-lt zero h = absurd (omega arith)
one_less-lt (suc n) h = omega arith

one_less-zero : (n : ℕ) → n ≡ 0 → one_less n ≡ 0
one_less-zero zero h = refl
one_less-zero (suc n) h = absurd (omega arith)

line-Transmits : Transmits line 16 (λ s. s.sent) (λ s. s.busy) 2
line-Transmits = record {
  poll_busy = λ s h. (bits_busy s.busy s.fifo h, one_less-lt s.busy h, refl);
  poll_free = λ s h. (bits_free s.busy s.fifo h, one_less-zero s.busy h, refl);
  put_free = λ s byte h. (refl, omega arith);
}

abbrev virt : Uart Line
virt = record { base = 16; hardware = record { busy = 1; sent = 72 ∷ []; fifo = 65 ∷ 66 ∷ [] } }

write_run :
    write line 3 virt (105 ∷ 33 ∷ [])
    ≡ some (
        done (record {
          base = 16;
          hardware = record { busy = 2; sent = 72 ∷ 105 ∷ 33 ∷ []; fifo = 65 ∷ 66 ∷ [] };
        }))
unfolding write regs write_bytes wait_thre lsr_is_set
write_run = refl

-- Two polls are not enough for the second byte.
write_short : write line 2 virt (105 ∷ 33 ∷ []) ≡ none
unfolding write regs write_bytes wait_thre lsr_is_set
write_short = refl

write_early : write line 3 (record virt { base = 0 }) (105 ∷ []) ≡ some panic
unfolding write regs
write_early = refl

write_lem_example :
    (u' : Uart Line) × (write line 3 virt (105 ∷ 33 ∷ []) ≡ some (done u'))
    × (u'.hardware.sent ≡ virt.hardware.sent ++ (105 ∷ 33 ∷ []))
    × (u'.hardware.busy ≤ 2)
    × (u'.base ≡ 16)
write_lem_example =
    write_lem line (λ s. s.sent) (λ s. s.busy) 2 3 16 line-Transmits virt (105 ∷ 33 ∷ []) refl
      (omega arith) (omega arith) (omega arith)

bits_empty : (n : ℕ) (fifo : List ℕ) → fifo ≡ [] → bit_and (room_bit n + ready_bit fifo) 0x01 ≡ 0
bits_empty zero [] e = refl
bits_empty (suc n) [] e = refl
bits_empty n (b ∷ bs) e = absurd (cc)

bits_ready :
    (n : ℕ) (fifo : List ℕ) (byte : ℕ) (bytes : List ℕ)
    → fifo ≡ byte ∷ bytes
    → bit_and (room_bit n + ready_bit fifo) 0x01 ≢ 0
bits_ready n [] byte bytes e z = absurd (cc)
bits_ready zero (b ∷ bs) byte bytes e z = absurd (omega arith)
bits_ready (suc n) (b ∷ bs) byte bytes e z = absurd (omega arith)

line-Receives : Receives line 16 (λ s. s.fifo)
line-Receives = record {
  poll_empty = λ s e. (bits_empty s.busy s.fifo e, e);
  poll_ready = λ s byte bytes e. (bits_ready s.busy s.fifo byte bytes e, e);
  take_ready = λ s byte bytes e. (ap first_of e, ap rest_of e);
}

new-IsValid : IsValid Serial.new
unfolding Serial.new
new-IsValid = record { head_in = omega arith; tail_in = omega arith }

rx_handler-eq_example :
    (u' : Uart Line) × (rx_handler line 3 virt Serial.new
      ≡ some (Serial.rx_handler Serial.new (65 ∷ 66 ∷ []) >>= λ p. done (u', p.0, p.1)))
    × (u'.hardware.fifo ≡ [])
    × (u'.base ≡ 16)
rx_handler-eq_example =
    rx_handler-eq line (λ s. s.fifo) 16 (omega arith) line-Receives 3 virt Serial.new new-IsValid
      refl (omega arith)
