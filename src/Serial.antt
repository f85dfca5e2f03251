-- ===== src/Serial.antt =====
-- The receive side of modules/platform/src/drivers/serial_ns16550a.rs, and the future of
-- modules/futures/src/serial.rs: a ring of 256 bytes that the interrupt fills and a task empties, and
-- a slot for the waker of one waiting task. What the device hands out during an interrupt is an
-- argument. Indices are 16 bits wide; reading an uninitialised waker slot is a panic here.
pub mod Ring
pub mod Wakeup
mod Tests
use rt_async.Base.{
  ℕ, ◌+◌, ◌%◌, ◌^◌, Bool, true, false, Option, none, some, List, [], ◌∷◌, ◌==◌, if◌then◌else◌, ltb,
  update, bit_and,
}
use rt_async.Base.Outcome.{Outcome, done, panic, ◌>>=◌, unwrap}

-- `SerialRxStatus`
pub data RxStatus : Type 0 where
  ready : ℕ → RxStatus
  pending unsupported : RxStatus

-- `RxState`
pub record RxState : Type 0 where
  pub head : ℕ
  pub tail : ℕ
  pub buf : ℕ → ℕ
  pub has_waker : ℕ
  pub waker : Option ℕ

abbrev pub rx_buf_size : ℕ
rx_buf_size = 256

abbrev pub rx_buf_mask : ℕ
rx_buf_mask = 255

-- The initial value of `RX`
unfoldable pub new : RxState
new = record { head = 0; tail = 0; buf = λ i. 0; has_waker = 0; waker = none }

-- The reset of the indices at the end of `probe`
unfoldable pub probe : RxState → RxState
probe s = record s { head = 0; tail = 0 }

-- `index.wrapping_add(1) & RX_BUF_MASK`
abbrev pub next_index : ℕ → ℕ
next_index i = bit_and ((i + 1) % 2 ^ 16) rx_buf_mask

unfoldable pub rx_push : RxState → ℕ → Outcome RxState
rx_push s byte =
    if next_index s.head == s.tail
    then done s
    else (if ltb s.head rx_buf_size
        then done (record s { buf = update s.buf s.head byte; head = next_index s.head })
        else panic)

unfoldable pub rx_pop : RxState → Outcome (RxState × Option ℕ)
rx_pop s =
    if s.head == s.tail
    then done (s, none)
    else (if ltb s.tail rx_buf_size
        then done (record s { tail = next_index s.tail }, some (s.buf s.tail))
        else panic)

-- The state afterwards, and the waker that is called.
unfoldable pub rx_wake : RxState → Outcome (RxState × Option ℕ)
rx_wake s =
    if s.has_waker == 0
    then done (s, none)
    else (do waker ← unwrap s.waker; done (record s { has_waker = 0; waker = none }, some waker))

-- The loop of `rx_handler`, over the bytes that the device hands out.
unfoldable pub rx_drain : RxState → List ℕ → Outcome RxState
rx_drain s [] = done s
rx_drain s (byte ∷ bytes) = do s' ← rx_push s byte; rx_drain s' bytes

unfoldable pub rx_handler : RxState → List ℕ → Outcome (RxState × Option ℕ)
rx_handler s bytes = do s' ← rx_drain s bytes; rx_wake s'

-- The critical section of `rx_register_waker`: the waker is written over the one that is there, and
-- the ring is checked again.
unfoldable pub register : RxState → ℕ → Outcome (RxState × RxStatus)
register s cx = do
  (s', byte) ← rx_pop (record s { waker = some cx; has_waker = 1 })
  done (elim byte [
    | none ↦ (s', pending)
    | some b ↦ (record s' { has_waker = 0; waker = none }, ready b)
  ])

-- The interrupts that come between the fast path and the critical section, each with its bytes.
unfoldable pub interrupts : RxState → List (List ℕ) → Outcome RxState
interrupts s [] = done s
interrupts s (bytes ∷ later) = do (s', woken) ← rx_handler s bytes; interrupts s' later

unfoldable pub rx_register_waker : RxState → ℕ → List (List ℕ) → Outcome (RxState × RxStatus)
rx_register_waker s cx arrivals = do
  (s', byte) ← rx_pop s
  elim byte [
    | some b ↦ done (s', ready b)
    | none ↦ do s'' ← interrupts s' arrivals; register s'' cx
  ]

-- The devices that may be the console: this driver, or one that keeps the `rx_register_waker` of the
-- trait `Serial`
pub data SerialDevice : Type 0 where
  ns16550a polled_only : SerialDevice

-- `Serial::rx_register_waker` of a device
unfoldable pub device_register_waker :
    SerialDevice → RxState → ℕ → List (List ℕ) → Outcome (RxState × RxStatus)
device_register_waker ns16550a s cx arrivals = rx_register_waker s cx arrivals
device_register_waker polled_only s cx arrivals = done (s, unsupported)

-- `SerialRx::poll`, with the device in the slot `CONSOLE`: `console` panics if there is none.
unfoldable pub poll :
    Option SerialDevice → RxState → ℕ → List (List ℕ) → Outcome (RxState × Option ℕ)
poll slot s cx arrivals = do
  device ← unwrap slot
  (s', status) ← device_register_waker device s cx arrivals
  done (s', elim status [ ready b ↦ some b | pending ↦ none | unsupported ↦ none ])
