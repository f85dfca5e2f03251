-- ===== src/Plic/Controller.antt =====
-- An abstract interrupt controller, the requests that plic_sifive.rs makes of it, and what a written
-- word means to it.
use rt_async.Base.{
  update, ℕ, ◌/◌, ◌%◌, ◌^◌, ◌<◌, ◌≡◌, bit_and, bit_or, arith, ap, ltb, ◌==◌, if◌then◌else◌, refl,
  inl, inr, true, Bool-cases, lt-cases, lt→ltb, ==→eq,
}
use rt_async.Base.Bits.{bit_not, shl_one, test_bit, test_bit-set, test_bit-clear}
use rt_async.Plic.Registers.{Register, priority_of, enable_of, threshold_of, address, IsRegister}

-- What the registers mean: of an interrupt, of a context and an interrupt, of a context.
pub record Controller : Type 0 where
  pub priority : ℕ → ℕ
  pub enabled : ℕ → ℕ → ℕ
  pub threshold : ℕ → ℕ

pub data Request : Type 0 where
  enabling disabling : ℕ → Request
  prioritising : ℕ → ℕ → Request
  masking : ℕ → Request

-- The manual's bounds on the numbers of interrupts
abbrev pub IsRequest : Request → Type 0
IsRequest (enabling irq) = irq < 1024
IsRequest (disabling irq) = irq < 1024
IsRequest (prioritising irq prio) = irq < 1024
IsRequest (masking thr) = Unit {0}

abbrev pub update_pair : (ℕ → ℕ → ℕ) → ℕ → ℕ → ℕ → ℕ → ℕ → ℕ
update_pair f context irq v c i = if context == c then (if irq == i then v else f c i) else f c i

abbrev pub meant : ℕ → Request → Controller → Controller
meant context (enabling irq) k = record k { enabled = update_pair k.enabled context irq 1 }
meant context (disabling irq) k = record k { enabled = update_pair k.enabled context irq 0 }
meant context (prioritising irq prio) k = record k { priority = update k.priority irq prio }
meant context (masking thr) k = record k { threshold = update k.threshold context thr }

abbrev pub target : ℕ → Request → Register
target context (enabling irq) = enable_of context (irq / 32)
target context (disabling irq) = enable_of context (irq / 32)
target context (prioritising irq prio) = priority_of irq
target context (masking thr) = threshold_of context

-- The controller that the words at the registers stand for
abbrev pub view : ℕ → (ℕ → ℕ) → Controller
view base words = record {
  priority = λ irq. if ltb irq 1024 then words (address base (priority_of irq)) else 0;
  enabled = λ context irq.
      if ltb context 15872
      then (if ltb irq 1024
          then test_bit (words (address base (enable_of context (irq / 32)))) (irq % 32)
          else 0)
      else 0;
  threshold =
      λ context. if ltb context 15872 then words (address base (threshold_of context)) else 0;
}

-- The word that a request writes
abbrev pub word : ℕ → ℕ → (ℕ → ℕ) → Request → ℕ
word base context words (enabling irq) =
    bit_or (words (address base (target context (enabling irq)))) (shl_one 32 (irq % 32))
word base context words (disabling irq) =
    bit_and (words (address base (target context (disabling irq))))
      (bit_not 32 (shl_one 32 (irq % 32)))
word base context words (prioritising irq prio) = prio
word base context words (masking thr) = thr

pub Controller-path :
    {a b : Controller}
    → ((irq : ℕ) → a.priority irq ≡ b.priority irq)
    → ((context irq : ℕ) → a.enabled context irq ≡ b.enabled context irq)
    → ((context : ℕ) → a.threshold context ≡ b.threshold context)
    → a ≡ b
Controller-path p e t = λ i. record {
  priority = λ irq. p irq i;
  enabled = λ context irq. e context irq i;
  threshold = λ context. t context i;
}

-- The words after one of them is written at the register of a request.
module _ (base context : ℕ) (old new : ℕ → ℕ) (in_range : context < 15872) where
  abbrev pub Wrote : Request → Type 0
  Wrote q =
      (r : Register)
      → IsRegister r
      → new (address base r) ≡ (
          if address base (target context q) == address base r
          then word base context old q
          else old (address base r))

  pub priority_after :
      (q : Request)
      → IsRequest q
      → Wrote q
      → (irq : ℕ) → (view base new).priority irq ≡ (meant context q (view base old)).priority irq
  priority_after (enabling i) hq wrote irq = ground (arith, wrote (priority_of irq))
  priority_after (disabling i) hq wrote irq = ground (arith, wrote (priority_of irq))
  priority_after (prioritising i prio) hq wrote irq = ground (arith, wrote (priority_of irq))
  priority_after (masking thr) hq wrote irq = ground (arith, wrote (priority_of irq))

  pub threshold_after :
      (q : Request)
      → IsRequest q
      → Wrote q
      → (c : ℕ) → (view base new).threshold c ≡ (meant context q (view base old)).threshold c
  threshold_after (enabling i) hq wrote c = ground (arith, wrote (threshold_of c))
  threshold_after (disabling i) hq wrote c = ground (arith, wrote (threshold_of c))
  threshold_after (prioritising i prio) hq wrote c = ground (arith, wrote (threshold_of c))
  threshold_after (masking thr) hq wrote c = ground (arith, wrote (threshold_of c))

  -- The word of a group of interrupts in a context
  abbrev group_at : ℕ → ℕ → ℕ
  group_at c d = address base (enable_of c (d / 32))

  same_group :
      (i c d : ℕ)
      → (group_at context i == group_at c d) ≡ true
      → i < 1024
      → d < 1024
      → (context ≡ c) × (i / 32 ≡ d / 32)
  same_group i c d e hi hd =
      let at : group_at context i ≡ group_at c d = ==→eq _ _ e in (omega arith, omega arith)

  digit_after :
      (q : Request) (i v : ℕ)
      → i < 1024
      → target context q ≡ enable_of context (i / 32)
      → ((j : ℕ)
          → test_bit (word base context old q) j
            ≡ (if i % 32 == j then v else test_bit (old (group_at context i)) j))
      → Wrote q
      → (c d : ℕ) → c < 15872
      → d < 1024
      → test_bit (new (group_at c d)) (d % 32) ≡ (
          if context == c
          then (if i == d then v else test_bit (old (group_at c d)) (d % 32))
          else test_bit (old (group_at c d)) (d % 32))
  digit_after q i v hi at digit wrote c d hc hd =
      rw (wrote (enable_of c (d / 32)) (hc, omega arith), at)
        (elim (Bool-cases (group_at context i == group_at c d)) [
          | inl same ↦
              rw (same, digit (d % 32))
                (ground (
                  arith,
                  same_group i c d same hi hd,
                  ap (λ a. test_bit (old a) (d % 32)) (==→eq _ _ same),
                ))
          | inr apart ↦ rw apart (ground (arith, apart))
        ])

  digit_enabled :
      (q : Request) (i v : ℕ)
      → i < 1024
      → target context q ≡ enable_of context (i / 32)
      → ((j : ℕ)
          → test_bit (word base context old q) j
            ≡ (if i % 32 == j then v else test_bit (old (group_at context i)) j))
      → Wrote q
      → (c irq : ℕ)
      → (view base new).enabled c irq ≡ update_pair (view base old).enabled context i v c irq
  digit_enabled q i v hi at digit wrote c irq = elim (lt-cases c 15872) [
    | inr out ↦ ground (arith, out)
    | inl inside ↦ elim (lt-cases irq 1024) [
      | inr past ↦ ground (arith, inside, past)
      | inl below ↦
          rw (lt→ltb c 15872 inside, lt→ltb irq 1024 below)
            (digit_after q i v hi at digit wrote c irq inside below)
    ]
  ]

  pub enabled_after :
      (q : Request)
      → IsRequest q
      → Wrote q
      → ((r : Register) → IsRegister r → old (address base r) < 2 ^ 32)
      → (c irq : ℕ)
      → (view base new).enabled c irq ≡ (meant context q (view base old)).enabled c irq
  enabled_after (enabling i) hq wrote fits c irq =
      digit_enabled (enabling i) i 1 hq refl
        (λ j. test_bit-set 32 (old (group_at context i)) (i % 32) j (omega arith)) wrote c irq
  enabled_after (disabling i) hq wrote fits c irq =
      digit_enabled (disabling i) i 0 hq refl
        (λ j.
          test_bit-clear 32 (old (group_at context i)) (i % 32) j
            (fits (enable_of context (i / 32)) (omega arith)) (omega arith))
        wrote c irq
  enabled_after (prioritising i prio) hq wrote fits c irq =
      ground (arith, wrote (enable_of c (irq / 32)))
  enabled_after (masking thr) hq wrote fits c irq = ground (arith, wrote (enable_of c (irq / 32)))
