-- ===== src/Device.antt =====
-- Memory-mapped registers as the drivers of modules/platform/src/drivers use them through the crate
-- `tock-registers`. The hardware behind an address is not code of the repository: it is an argument,
-- with its own state. A read may change that state, as the claim register and a receive buffer do.
use rt_async.Base.{ℕ, ◌%◌, ◌^◌, List, [], ◌∷◌, Option, none, some}
use rt_async.Base.Outcome.{Outcome, ◌>>=◌, unwrap}

-- `get` and `set` of a register; the first argument is its width in bits.
pub record Bus (S : Type 0) : Type 0 where
  pub read : ℕ → S → ℕ → ℕ × S
  pub write : ℕ → S → ℕ → ℕ → S

-- Addition and multiplication of `usize` wrap around.
abbrev pub usize : ℕ → ℕ
usize x = x % 2 ^ 64

abbrev pub first : List ℕ → Option ℕ
first [] = none
first (x ∷ xs) = some x

-- `node.reg().expect(..).next().expect(..)`: the first address of the `reg` property, which the crate
-- `fdt-parser` reads.
unfoldable pub first_reg : Option (List ℕ) → Outcome ℕ
first_reg reg = do addresses ← unwrap reg; unwrap (first addresses)
