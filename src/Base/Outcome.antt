-- ===== src/Base/Outcome.antt =====
-- A computation that may panic: a failed `assert!`, `expect` or `unwrap`, an index out of bounds.
use mathlib.Core.Path.{◌≡◌}
use mathlib.Core.Logic.{inr, inl, ◌⊎◌, ◌≢◌}
use mathlib.Core.Option.{Option, none, some}
use rt_async.Base.{refl}

pub data Outcome {ℓ} (A : Type ℓ) : Type ℓ where
  done : A → Outcome A
  panic : Outcome A

infixl 5 ◌>>=◌
abbrev pub ◌>>=◌ {ℓ κ} : {A : Type ℓ} {B : Type κ} → Outcome A → (A → Outcome B) → Outcome B
done a >>= f = f a
panic >>= f = panic

-- `unwrap` and `expect`
abbrev pub unwrap {ℓ} : {A : Type ℓ} → Option A → Outcome A
unwrap none = panic
unwrap (some a) = done a

pub done_injective {ℓ} : {A : Type ℓ} {a b : A} → done a ≡ done b → a ≡ b
done_injective e = cc

pub done-ne-panic {ℓ} : {A : Type ℓ} {a : A} {r : Outcome A} → r ≡ done a → r ≢ panic
done-ne-panic e h = cc

pub Outcome-cases {ℓ} : {A : Type ℓ} (r : Outcome A) → (r ≡ panic) ⊎ ((a : A) × (r ≡ done a))
Outcome-cases panic = inl refl
Outcome-cases (done a) = inr (a, refl)
