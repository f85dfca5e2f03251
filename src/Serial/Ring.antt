-- ===== src/Serial/Ring.antt =====
-- The ring of serial_ns16550a.rs as a queue of at most 255 bytes.
use rt_async.Base.{
  ◌^◌, ℕ, zero, suc, ◌+◌, ◌-◌, ◌%◌, ◌<◌, ◌≡◌, ◌≢◌, ◌⊎◌, inl, inr, none, some, List, [], ◌∷◌, ◌++◌,
  if◌then◌else◌, ltb, length, refl, arith, update, ap, eq-cases, ==_refl, ne→==, ◌∙◌, sym,
}
use rt_async.Base.Bits.{bit_and-byte}
use rt_async.Base.Outcome.{done}
use rt_async.Serial.{RxState, next_index, rx_push, rx_pop, rx_drain}
use mathlib.Core.Path.{ap₂}

-- The number of bytes in the ring.
abbrev pub count : RxState → ℕ
count s = (s.head + 256 - s.tail) % 256

abbrev pub read_from : (ℕ → ℕ) → ℕ → ℕ → List ℕ
read_from buf t zero = []
read_from buf t (suc n) = buf t ∷ read_from buf ((t + 1) % 256) n

-- The bytes in the ring, the oldest first.
abbrev pub contents : RxState → List ℕ
contents s = read_from s.buf s.tail (count s)

pub record IsValid (s : RxState) : Type 0 where
  pub head_in : s.head < 256
  pub tail_in : s.tail < 256

-- A queue of at most 255 bytes that drops what it has no room for.
abbrev pub offer : List ℕ → ℕ → List ℕ
offer queue byte = if ltb (length queue) 255 then queue ++ (byte ∷ []) else queue

abbrev pub offers : List ℕ → List ℕ → List ℕ
offers queue [] = queue
offers queue (byte ∷ bytes) = offers (offer queue byte) bytes

length-read_from : (buf : ℕ → ℕ) (t n : ℕ) → length (read_from buf t n) ≡ n
length-read_from buf t zero = refl
length-read_from buf t (suc n) = ap suc (length-read_from buf ((t + 1) % 256) n)

pub length-contents : (s : RxState) → length (contents s) ≡ count s
length-contents s = length-read_from s.buf s.tail (count s)

pub next_index_lem : (i : ℕ) → i < 256 → next_index i ≡ (i + 1) % 256
next_index_lem i h = omega (arith, bit_and-byte ((i + 1) % 2 ^ 16))

-- A byte written where the queue ends is read after the others.
read_from-update :
    (buf : ℕ → ℕ) (h b t n : ℕ)
    → t < 256
    → n < 256
    → h ≡ (t + n) % 256
    → read_from (update buf h b) t (suc n) ≡ read_from buf t n ++ (b ∷ [])
read_from-update buf h b t zero ht hn e =
    let same : h ≡ t = omega arith in ap (λ x. x ∷ []) (rw same (rw ==_refl))
read_from-update buf h b t (suc n) ht hn e =
    let other : h ≢ t = λ q. omega arith in
    ap₂ (λ x xs. x ∷ xs) (rw (ne→== h t other))
      (read_from-update buf h b ((t + 1) % 256) n (omega arith) (omega arith) (omega arith))

-- `rx_push` on a valid ring does not panic; it changes nothing but the ring, and the queue takes the
-- byte if there is room and drops it otherwise.
pub rx_push_lem :
    (s : RxState) (byte : ℕ)
    → IsValid s
    → (s' : RxState) × (rx_push s byte ≡ done s')
      × IsValid s'
      × (contents s' ≡ offer (contents s) byte)
      × (s'.has_waker ≡ s.has_waker)
      × (s'.waker ≡ s.waker)
unfolding rx_push
rx_push_lem s byte v =
    let step = next_index_lem s.head v.head_in in
    let size = length-contents s in
    elim (eq-cases (next_index s.head) s.tail) [
      | inl full ↦
          (s, ground (arith, full), v, ground (arith, size, step, v.head_in, v.tail_in), refl, refl)
      | inr room ↦
          let s' = record s { buf = update s.buf s.head byte; head = next_index s.head } in
          let more : count s' ≡ suc (count s) = omega (arith, step, v.head_in, v.tail_in) in
          (
            s',
            ground (arith, room, v.head_in),
            record { head_in = omega (arith, step); tail_in = v.tail_in },
            ap (read_from s'.buf s.tail) more
                ∙ read_from-update s.buf s.head byte s.tail (count s) v.tail_in (omega arith)
                    (omega (arith, v.head_in, v.tail_in))
                ∙ ground (arith, size, step, v.head_in, v.tail_in, room),
            refl,
            refl,
          )
    ]

-- `rx_pop` on a valid ring does not panic; it takes the oldest byte, or nothing if the ring is empty,
-- and changes nothing but the ring.
pub rx_pop_lem :
    (s : RxState)
    → IsValid s
    → ((contents s ≡ []) × (rx_pop s ≡ done (s, none)))
      ⊎ ((s' : RxState) × (byte : ℕ) × (rx_pop s ≡ done (s', some byte))
          × IsValid s'
          × (contents s ≡ byte ∷ contents s')
          × (s'.has_waker ≡ s.has_waker)
          × (s'.waker ≡ s.waker))
unfolding rx_pop
rx_pop_lem s v =
    let step = next_index_lem s.tail v.tail_in in
    elim (eq-cases s.head s.tail) [
      | inl empty ↦ inl (
        ap (read_from s.buf s.tail) {x = count s} {y = 0} (omega (arith, v.tail_in)),
        ground (arith, empty),
      )
      | inr some_byte ↦
          let s' = record s { tail = next_index s.tail } in
          let fewer : count s ≡ suc (count s') = omega (arith, step, v.head_in, v.tail_in) in
          inr (
            s',
            s.buf s.tail,
            ground (arith, some_byte, v.tail_in),
            record { head_in = v.head_in; tail_in = omega (arith, step) },
            ap (read_from s.buf s.tail) fewer
                ∙ ap (λ t. s.buf s.tail ∷ read_from s.buf t (count s')) (sym step),
            refl,
            refl,
          )
    ]

-- The loop of the interrupt handler on a valid ring does not panic, whatever bytes come: the queue
-- takes them in order, as far as it has room.
pub rx_drain_lem :
    (bytes : List ℕ) (s : RxState)
    → IsValid s
    → (s' : RxState) × (rx_drain s bytes ≡ done s')
      × IsValid s'
      × (contents s' ≡ offers (contents s) bytes)
      × (s'.has_waker ≡ s.has_waker)
      × (s'.waker ≡ s.waker)
unfolding rx_drain
rx_drain_lem [] s v = (s, refl, v, refl, refl, refl)
rx_drain_lem (byte ∷ bytes) s v =
    let (s₁, e₁, v₁, c₁, h₁, w₁) = rx_push_lem s byte v in
    let (s₂, e₂, v₂, c₂, h₂, w₂) = rx_drain_lem bytes s₁ v₁ in
    (s₂, ground (arith, e₁, e₂), v₂, c₂ ∙ ap (λ q. offers q bytes) c₁, h₂ ∙ h₁, w₂ ∙ w₁)
