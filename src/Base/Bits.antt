-- ===== src/Base/Bits.antt =====
-- Machine words as numbers: the digits of `|`, `&`, `!`, `<<` and `>>`, and `trailing_zeros`.
use Prim.Native.Nat.{
  ℕ, zero, suc, ◌+◌, ◌-◌, ◌*◌, ◌/◌, ◌%◌, ◌^◌, ◌≤◌, ◌<◌, min, max, bit_and, bit_or, digits,
  bit_and-bitwise, bit_or-bitwise,
}
use mathlib.Core.Path.{◌≡◌, refl, sym, ◌∙◌, ap}
use mathlib.Core.Logic.{◌≢◌, inl, inr}
use native.Mathlib.Omega.{arith}
use native.Mathlib.Nat.{pow-suc, div-div-eq-div-mul, div-one, one-le-pow, mod-eq_of_lt, mul_comm}
use rt_async.Base.Tests.{◌==◌, if◌then◌else◌, eq-cases, lt-cases, ne→==}

-- The digit of weight `2 ^ i`.
unfoldable pub test_bit : ℕ → ℕ → ℕ
test_bit x zero = x % 2
test_bit x (suc i) = test_bit (x / 2) i

-- `!x` on a word of `w` bits
abbrev pub bit_not : ℕ → ℕ → ℕ
bit_not w x = 2 ^ w - 1 - x

-- `1 << k` on a word of `w` bits
abbrev pub shl_one : ℕ → ℕ → ℕ
shl_one w k = 2 ^ k % 2 ^ w

-- `x >> k`
abbrev pub shr : ℕ → ℕ → ℕ
shr x k = x / 2 ^ k

-- `x.trailing_zeros()` on a word of `w` bits; `w` at zero
unfoldable pub trailing_zeros : ℕ → ℕ → ℕ
trailing_zeros zero x = 0
trailing_zeros (suc w) x = if x % 2 == 1 then 0 else suc (trailing_zeros w (x / 2))

-- The native operations recur on a digit count; any count that is large enough will do.
module _ (z : ℕ → ℕ) (f : ℕ → ℕ → ℕ) where
  digits_count : (n m a b : ℕ) → a ≤ n → a ≤ m → digits z f n a b ≡ digits z f m a b
  digits_count zero zero a b p q = refl
  digits_count zero (suc m) zero b p q = refl
  digits_count zero (suc m) (suc a) b p q = absurd (omega arith)
  digits_count (suc n) zero zero b p q = refl
  digits_count (suc n) zero (suc a) b p q = absurd (omega arith)
  digits_count (suc n) (suc m) zero b p q = refl
  digits_count (suc n) (suc m) (suc a) b p q =
      ap (λ (t : ℕ). t * 2 + f (suc a % 2) (b % 2))
        (digits_count n m (suc a / 2) (b / 2) (omega arith) (omega arith))

pub bit_or-digit : (a b : ℕ) → bit_or a b ≡ bit_or (a / 2) (b / 2) * 2 + max (a % 2) (b % 2)
bit_or-digit zero b = omega (arith, bit_or-bitwise 0 b, bit_or-bitwise 0 (b / 2))
bit_or-digit (suc a) b = omega (
  arith,
  bit_or-bitwise (suc a) b,
  bit_or-bitwise (suc a / 2) (b / 2),
  digits_count (λ y. y) max a (suc a / 2) (suc a / 2) (b / 2) (omega arith) (omega arith),
)

pub bit_and-digit : (a b : ℕ) → bit_and a b ≡ bit_and (a / 2) (b / 2) * 2 + min (a % 2) (b % 2)
bit_and-digit zero b = omega (arith, bit_and-bitwise 0 b, bit_and-bitwise 0 (b / 2))
bit_and-digit (suc a) b = omega (
  arith,
  bit_and-bitwise (suc a) b,
  bit_and-bitwise (suc a / 2) (b / 2),
  digits_count (λ y. 0) min a (suc a / 2) (suc a / 2) (b / 2) (omega arith) (omega arith),
)

pub test_bit-le : (x i : ℕ) → test_bit x i ≤ 1
unfolding test_bit
test_bit-le x zero = omega arith
test_bit-le x (suc i) = test_bit-le (x / 2) i

pub test_bit-bit_or : (a b i : ℕ) → test_bit (bit_or a b) i ≡ max (test_bit a i) (test_bit b i)
unfolding test_bit
test_bit-bit_or a b zero = omega (arith, bit_or-digit a b)
test_bit-bit_or a b (suc i) =
    ap (λ x. test_bit x i) (omega (arith, bit_or-digit a b)) ∙ test_bit-bit_or (a / 2) (b / 2) i

pub test_bit-bit_and : (a b i : ℕ) → test_bit (bit_and a b) i ≡ min (test_bit a i) (test_bit b i)
unfolding test_bit
test_bit-bit_and a b zero = omega (arith, bit_and-digit a b)
test_bit-bit_and a b (suc i) =
    ap (λ x. test_bit x i) (omega (arith, bit_and-digit a b)) ∙ test_bit-bit_and (a / 2) (b / 2) i

pub test_bit-zero : (i : ℕ) → test_bit 0 i ≡ 0
unfolding test_bit
test_bit-zero zero = refl
test_bit-zero (suc i) = test_bit-zero i

pub test_bit-pow : (b i : ℕ) → test_bit (2 ^ b) i ≡ (if b == i then 1 else 0)
unfolding test_bit
test_bit-pow zero zero = refl
test_bit-pow zero (suc i) = ground (arith, test_bit-zero i)
test_bit-pow (suc b) zero = ground (arith, pow-suc 2 b)
test_bit-pow (suc b) (suc i) =
    ap (λ x. test_bit x i) (omega (arith, pow-suc 2 b)) ∙ test_bit-pow b i ∙ (ground arith)

pub test_bit-bit_not : (w x i : ℕ) → x < 2 ^ w → i < w → test_bit (bit_not w x) i ≡ 1 - test_bit x i
unfolding test_bit
test_bit-bit_not zero x i hx hi = absurd (omega arith)
test_bit-bit_not (suc w) x zero hx hi = omega (arith, pow-suc 2 w)
test_bit-bit_not (suc w) x (suc i) hx hi =
    ap (λ y. test_bit y i) (omega (arith, pow-suc 2 w))
    ∙ test_bit-bit_not w (x / 2) i (omega (arith, pow-suc 2 w)) (omega arith)

-- A word in range has no digit above its width.
pub test_bit-above : (w x i : ℕ) → x < 2 ^ w → w ≤ i → test_bit x i ≡ 0
unfolding test_bit
test_bit-above zero x i hx hi = ap (λ y. test_bit y i) {y = 0} (omega arith) ∙ test_bit-zero i
test_bit-above (suc w) x zero hx hi = absurd (omega arith)
test_bit-above (suc w) x (suc i) hx hi =
    test_bit-above w (x / 2) i (omega (arith, pow-suc 2 w)) (omega arith)

pub bit_or-lt : (w a b : ℕ) → a < 2 ^ w → b < 2 ^ w → bit_or a b < 2 ^ w
bit_or-lt zero a b ha hb =
    omega (arith, ap (λ x. bit_or x b) {x = a} {y = 0} (omega arith), bit_or-bitwise 0 b)
bit_or-lt (suc w) a b ha hb = omega (
  arith,
  pow-suc 2 w,
  bit_or-digit a b,
  bit_or-lt w (a / 2) (b / 2) (omega (arith, pow-suc 2 w)) (omega (arith, pow-suc 2 w)),
)

pub bit_and-lt : (w a b : ℕ) → a < 2 ^ w → bit_and a b < 2 ^ w
bit_and-lt zero a b ha =
    omega (arith, ap (λ x. bit_and x b) {x = a} {y = 0} (omega arith), bit_and-bitwise 0 b)
bit_and-lt (suc w) a b ha = omega (
  arith,
  pow-suc 2 w,
  bit_and-digit a b,
  bit_and-lt w (a / 2) (b / 2) (omega (arith, pow-suc 2 w)),
)

-- In a shift that stays inside the word nothing is cut off.
pub shl_one-pow : (w k : ℕ) → k < w → (shl_one w k ≡ 2 ^ k) × (2 ^ k < 2 ^ w)
shl_one-pow w k h = let lt : 2 ^ k < 2 ^ w = pow-lt w k h in (mod-eq_of_lt lt, lt)
  where
    pow-lt : (w k : ℕ) → k < w → 2 ^ k < 2 ^ w
    pow-lt zero k h = absurd (omega arith)
    pow-lt (suc w) zero h = omega (arith, pow-suc 2 w, one-le-pow w 2)
    pow-lt (suc w) (suc k) h = omega (arith, pow-suc 2 w, pow-suc 2 k, pow-lt w k (omega arith))

-- `|= 1 << k` sets digit `k` and keeps the others.
pub test_bit-set :
    (w x k i : ℕ)
    → k < w
    → test_bit (bit_or x (shl_one w k)) i ≡ (if k == i then 1 else test_bit x i)
test_bit-set w x k i h =
    rw ((shl_one-pow w k h).0, test_bit-bit_or) (ground (arith, test_bit-pow k i, test_bit-le x i))

-- `&= !(1 << k)` clears digit `k` and keeps the others.
pub test_bit-clear :
    (w x k i : ℕ)
    → x < 2 ^ w
    → k < w
    → test_bit (bit_and x (bit_not w (shl_one w k))) i ≡ (if k == i then 0 else test_bit x i)
test_bit-clear w x k i hx h =
    rw ((shl_one-pow w k h).0, test_bit-bit_and)
      (elim (lt-cases i w) [
        | inl below ↦ ground (
          arith,
          test_bit-bit_not w (2 ^ k) i (shl_one-pow w k h).1 below,
          test_bit-pow k i,
          test_bit-le x i,
        )
        | inr above ↦ ground (arith, test_bit-above w x i hx above)
      ])

bit_and-zero_count : (n a : ℕ) → a ≤ n → bit_and a 0 ≡ 0
bit_and-zero_count n zero h = refl
bit_and-zero_count zero (suc a) h = absurd (omega arith)
bit_and-zero_count (suc n) (suc a) h =
    omega (arith, bit_and-digit (suc a) 0, bit_and-zero_count n (suc a / 2) (omega arith))

pub bit_and-one : (a : ℕ) → bit_and a 1 ≡ a % 2
bit_and-one a = omega (arith, bit_and-digit a 1, bit_and-zero_count (a / 2) (a / 2) (omega arith))

test_bit-shr_lem : (x k : ℕ) → shr x k % 2 ≡ test_bit x k
unfolding test_bit
test_bit-shr_lem x zero = ap (λ y. y % 2) (div-one x)
test_bit-shr_lem x (suc k) =
    ap (λ y. y % 2)
      (ap (λ y. x / y) (pow-suc 2 k ∙ mul_comm (2 ^ k) 2) ∙ sym (div-div-eq-div-mul x 2 (2 ^ k)))
    ∙ test_bit-shr_lem (x / 2) k

-- `(x >> k) & 1` is digit `k`.
pub bit_and-shr : (x k : ℕ) → bit_and (shr x k) 1 ≡ test_bit x k
bit_and-shr x k = bit_and-one (shr x k) ∙ test_bit-shr_lem x k

-- Of a word that is not zero, `trailing_zeros` is the place of a digit 1, inside the word.
pub trailing_zeros_lem :
    (w x : ℕ) → x < 2 ^ w → x ≢ 0 → (trailing_zeros w x < w) × (test_bit x (trailing_zeros w x) ≡ 1)
unfolding trailing_zeros test_bit
trailing_zeros_lem zero x hx h = absurd (h (omega arith))
trailing_zeros_lem (suc w) x hx h = elim (eq-cases (x % 2) 1) [
  | inl odd ↦ ground arith
  | inr even ↦ rw (ne→== (x % 2) 1 even) (
      let ih = trailing_zeros_lem w (x / 2) (omega (arith, pow-suc 2 w)) (omega arith) in
      (omega arith, ih.1))
]

-- All digits below it are 0.
pub trailing_zeros-below : (w x i : ℕ) → i < trailing_zeros w x → test_bit x i ≡ 0
unfolding trailing_zeros test_bit
trailing_zeros-below zero x i h = absurd (omega arith)
trailing_zeros-below (suc w) x zero h = ground arith
trailing_zeros-below (suc w) x (suc i) h = trailing_zeros-below w (x / 2) i (ground arith)

-- A mask of ones is the remainder: two digits, then four, then eight.
bit_and-three : (a : ℕ) → bit_and a 3 ≡ a % 4
bit_and-three a = omega (arith, bit_and-digit a 3, bit_and-one (a / 2))

bit_and-fifteen : (a : ℕ) → bit_and a 15 ≡ a % 16
bit_and-fifteen a =
    omega (arith, bit_and-digit a 15, bit_and-digit (a / 2) 7, bit_and-three (a / 2 / 2))

pub bit_and-byte : (a : ℕ) → bit_and a 255 ≡ a % 256
bit_and-byte a = omega (
  arith,
  bit_and-digit a 255,
  bit_and-digit (a / 2) 127,
  bit_and-digit (a / 2 / 2) 63,
  bit_and-digit (a / 2 / 2 / 2) 31,
  bit_and-fifteen (a / 2 / 2 / 2 / 2),
)
