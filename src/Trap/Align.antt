-- ===== src/Trap/Align.antt =====
-- Where the frame of a trap lies: the stack pointer is lowered and rounded down by a mask.
use rt_async.Base.{ℕ, zero, suc, ◌+◌, ◌-◌, ◌/◌, ◌%◌, ◌^◌, ◌<◌, ◌≤◌, ◌≡◌, arith, ◌∙◌, ap, bit_and}
use rt_async.Base.Bits.{bit_not, bit_and-digit}
use native.Mathlib.Nat.{pow-suc}

bit_and-ones : (w x : ℕ) → x < 2 ^ w → bit_and x (2 ^ w - 1) ≡ x
bit_and-ones zero x h = ap (λ y. bit_and y 0) {x = x} {y = 0} (omega arith) ∙ omega arith
bit_and-ones (suc w) x h = omega (
  arith,
  pow-suc 2 w,
  bit_and-digit x (2 ^ suc w - 1),
  ap (λ m. bit_and (x / 2) m) {x = (2 ^ suc w - 1) / 2} {y = 2 ^ w - 1}
      (omega (arith, pow-suc 2 w)),
  bit_and-ones w (x / 2) (omega (arith, pow-suc 2 w)),
)

align_lem : (x : ℕ) → x < 2 ^ 64 → bit_and x (bit_not 64 15) ≡ x - x % 16
align_lem x h = omega (
  arith,
  bit_and-digit x (bit_not 64 15),
  bit_and-digit (x / 2) (2 ^ 63 - 8),
  bit_and-digit (x / 2 / 2) (2 ^ 62 - 4),
  bit_and-digit (x / 2 / 2 / 2) (2 ^ 61 - 2),
  bit_and-ones 60 (x / 2 / 2 / 2 / 2) (omega arith),
)

-- The address of the frame of a trap: 272 bytes below the stack pointer, rounded down to 16.
abbrev pub frame_at : ℕ → ℕ
frame_at top = top - 272 - (top - 272) % 16

pub push_lem :
    (top : ℕ)
    → 272 ≤ top
    → top < 2 ^ 64
    → bit_and ((top + 2 ^ 64 - 272) % 2 ^ 64) (bit_not 64 15) ≡ frame_at top
push_lem top lo hi = align_lem ((top + 2 ^ 64 - 272) % 2 ^ 64) (omega arith) ∙ omega arith
