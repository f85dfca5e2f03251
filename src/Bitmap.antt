-- ===== src/Bitmap.antt =====
-- modules/executor/src/priority_bitmap.rs: the two-level priority bitmap.
-- A `u64` is a number; `NUM_GROUPS` is the length of `group_table`. The `debug_assert!` of `set`,
-- `clear` and `is_set` panics where the index into the table panics in a release build, so the one
-- test stands for both.
pub mod Digits
pub mod Highest
pub mod Sets
mod Tests
use rt_async.Base.{
  ℕ, ◌+◌, ◌*◌, ◌/◌, ◌%◌, Bool, not, Option, none, some, List, length, get_elem?, set as set_elem,
  replicate, ltb, leb, ◌==◌, if◌then◌else◌, bit_and, bit_or,
}
use rt_async.Base.Bits.{bit_not, shl_one, shr, trailing_zeros}
use rt_async.Base.Outcome.{Outcome, done, panic, ◌>>=◌, unwrap}

pub record PriorityBitmap : Type 0 where
  pub group_map : ℕ
  pub group_table : List ℕ

abbrev pub group_bits : ℕ
group_bits = 64

abbrev pub capacity : PriorityBitmap → ℕ
capacity bm = length bm.group_table * 64

unfoldable pub new : ℕ → Outcome PriorityBitmap
new num_groups =
    if ltb 0 num_groups
    then (if leb num_groups 64
        then done (record { group_map = 0; group_table = replicate num_groups 0 })
        else panic)
    else panic

unfoldable pub set : PriorityBitmap → ℕ → Outcome PriorityBitmap
set bm prio = do
  word ← unwrap (get_elem? bm.group_table (prio / group_bits))
  done (record bm {
    group_map = bit_or bm.group_map (shl_one 64 (prio / group_bits));
    group_table =
        set_elem bm.group_table (prio / group_bits) (bit_or word (shl_one 64 (prio % group_bits)));
  })

-- The word of the group without the digit of `prio`.
abbrev pub cleared : ℕ → ℕ → ℕ
cleared word prio = bit_and word (bit_not 64 (shl_one 64 (prio % group_bits)))

unfoldable pub clear : PriorityBitmap → ℕ → Outcome PriorityBitmap
clear bm prio = do
  word ← unwrap (get_elem? bm.group_table (prio / group_bits))
  done (record bm {
    group_map =
        (if cleared word prio == 0
          then bit_and bm.group_map (bit_not 64 (shl_one 64 (prio / group_bits)))
          else bm.group_map);
    group_table = set_elem bm.group_table (prio / group_bits) (cleared word prio);
  })

unfoldable pub highest : PriorityBitmap → Outcome (Option ℕ)
highest bm = if bm.group_map == 0 then done none else do
  word ← unwrap (get_elem? bm.group_table (trailing_zeros 64 bm.group_map))
  done (some (trailing_zeros 64 bm.group_map * group_bits + trailing_zeros 64 word))

unfoldable pub is_set : PriorityBitmap → ℕ → Outcome Bool
is_set bm prio = do
  word ← unwrap (get_elem? bm.group_table (prio / group_bits))
  done (not (bit_and (shr word (prio % group_bits)) 1 == 0))

unfoldable pub is_empty : PriorityBitmap → Bool
is_empty bm = bm.group_map == 0

unfoldable pub pop_highest : PriorityBitmap → Outcome (Option ℕ × PriorityBitmap)
pop_highest bm = do
  found ← highest bm
  elim found [ none ↦ done (none, bm) | some prio ↦ do bm' ← clear bm prio; done (some prio, bm') ]

unfoldable pub clear_all : PriorityBitmap → PriorityBitmap
clear_all bm = record { group_map = 0; group_table = replicate (length bm.group_table) 0 }
