-- ===== src/Plic/Registers.antt =====
-- The registers of plic_sifive.rs as the device's manual lays them out, and the four operations on
-- them as changes of an abstract controller.
use rt_async.Base.{ℕ, ◌+◌, ◌*◌, ◌^◌, ◌<◌, ◌≡◌, arith, ap, ◌==◌, if◌then◌else◌}
use rt_async.Device.{Bus}

-- The registers that keep what is written: of an interrupt, of a context and a group of 32
-- interrupts, of a context.
pub data Register : Type 0 where
  priority_of : ℕ → Register
  enable_of : ℕ → ℕ → Register
  threshold_of : ℕ → Register

abbrev pub address : ℕ → Register → ℕ
address base (priority_of irq) = base + 4 * irq
address base (enable_of context group) = base + 0x2000 + 0x80 * context + 4 * group
address base (threshold_of context) = base + 0x200000 + 0x1000 * context

abbrev pub IsRegister : Register → Type 0
IsRegister (priority_of irq) = irq < 1024
IsRegister (enable_of context group) = (context < 15872) × (group < 32)
IsRegister (threshold_of context) = context < 15872

-- No two registers share an address.
pub address_injective :
    (base : ℕ) (r r' : Register)
    → IsRegister r
    → IsRegister r'
    → address base r ≡ address base r'
    → r ≡ r'
address_injective base (priority_of i) (priority_of j) h h' e = ap priority_of (omega arith)
address_injective base (priority_of i) (enable_of c g) h h' e = absurd (omega arith)
address_injective base (priority_of i) (threshold_of c) h h' e = absurd (omega arith)
address_injective base (enable_of c g) (priority_of i) h h' e = absurd (omega arith)
address_injective base (enable_of c g) (enable_of d k) h h' e =
    let same : c ≡ d = omega arith in let group : g ≡ k = omega arith in cc
address_injective base (enable_of c g) (threshold_of d) h h' e = absurd (omega arith)
address_injective base (threshold_of c) (priority_of i) h h' e = absurd (omega arith)
address_injective base (threshold_of c) (enable_of d k) h h' e = absurd (omega arith)
address_injective base (threshold_of c) (threshold_of d) h h' e = ap threshold_of (omega arith)

-- What the manual says of these registers: a read changes nothing, a word that fits is kept, and no
-- other register changes.
pub record Keeps {S : Type 0} (bus : Bus S) (base : ℕ) (peek : S → ℕ → ℕ)
    (Fits : Register → ℕ → Type 0) : Type 0 where
  pub read_kept :
      (s : S) (r : Register)
      → IsRegister r
      → bus.read 32 s (address base r) ≡ (peek s (address base r), s)
  pub write_kept :
      (s : S) (r : Register) (v : ℕ) (r' : Register)
      → IsRegister r
      → IsRegister r'
      → Fits r v
      → peek (bus.write 32 s (address base r) v) (address base r')
        ≡ (if address base r == address base r' then v else peek s (address base r'))
  pub peek-lt : (s : S) (r : Register) → IsRegister r → peek s (address base r) < 2 ^ 32
