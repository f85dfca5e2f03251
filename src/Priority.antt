-- ===== src/Priority.antt =====
-- modules/executor/src/priority.rs: a priority is a number, and the lower number is the higher
-- priority: `Ord` is inverted, and `is_lower_than` and `is_higher_than` are its `<` and `>`.
use Prim.Native.Nat.{compare, Ordering}
use rt_async.Base.{ℕ, ◌<◌, ◌≡◌, ◌↔◌, Bool, true, false, arith}

pub record Priority : Type 0 where
  pub value : ℕ

unfoldable pub new : ℕ → Priority
new value = record { value = value }

unfoldable pub to_usize : Priority → ℕ
to_usize p = p.value

unfoldable pub set : Priority → ℕ → Priority
set p prio = record { value = prio }

-- `Ord::cmp`: `other.0.cmp(&self.0)`
unfoldable pub cmp : Priority → Priority → Ordering
cmp p other = compare other.value p.value

unfoldable pub is_lower_than : Priority → Priority → Bool
unfolding cmp
is_lower_than p other = elim (cmp p other) [ Ordering.lt ↦ true | _ ↦ false ]

unfoldable pub is_higher_than : Priority → Priority → Bool
unfolding cmp
is_higher_than p other = elim (cmp p other) [ Ordering.gt ↦ true | _ ↦ false ]

-- `p` is higher than `q` exactly when its number is smaller, and exactly when `q` is lower than `p`.
pub is_higher_than_iff :
    (p q : Priority)
    → ((is_higher_than p q ≡ true) ↔ (to_usize p < to_usize q))
      × (is_higher_than p q ≡ is_lower_than q p)
unfolding is_higher_than is_lower_than to_usize
is_higher_than_iff p q = ground arith
