-- ===== src/Bitmap/Digits.antt =====
-- What `set`, `clear` and `clear_all` of priority_bitmap.rs do to the digit of each priority, and the
-- invariant that ties the group map to the groups.
use Prim.Native.Nat.{bit_and-bitwise}
use rt_async.Base.{
  ℕ, ◌/◌, ◌%◌, ◌^◌, ◌≤◌, ◌<◌, ◌≡◌, ap, ◌≢◌, ◌∙◌, inl, inr, some, length, get_elem?, get_or,
  set as set_elem, replicate, length-set, length-replicate, get_or-replicate, get_elem?-eq-get_or,
  get_or-set, ◌==◌, if◌then◌else◌, bit_and, bit_or, eq-cases, arith, ne→==, subst,
}
use rt_async.Base.Bits.{
  bit_not, shl_one, test_bit, test_bit-le, test_bit-zero, test_bit-set, test_bit-clear, bit_or-lt,
  bit_and-lt, bit_and-shr, shl_one-pow,
}
use rt_async.Base.Outcome.{done}
use rt_async.Bitmap.{PriorityBitmap, capacity, new, set, cleared, clear, is_set, clear_all}

-- The word of a group; 0 past the end.
abbrev pub word : PriorityBitmap → ℕ → ℕ
word bm g = get_or bm.group_table g 0

-- 1 if the priority is set, else 0; 0 past the capacity.
abbrev pub digit : PriorityBitmap → ℕ → ℕ
digit bm prio = test_bit (word bm (prio / 64)) (prio % 64)

pub record IsValid (bm : PriorityBitmap) : Type 0 where
  pub some_group : 0 < length bm.group_table
  pub few_groups : length bm.group_table ≤ 64
  pub words : (g : ℕ) → word bm g < 2 ^ 64
  pub map_word : bm.group_map < 2 ^ 64
  pub off : (g : ℕ) → word bm g ≡ 0 → test_bit bm.group_map g ≡ 0
  pub on : (g : ℕ) → word bm g ≢ 0 → test_bit bm.group_map g ≡ 1

-- `new` succeeds for 1 to 64 groups, with a valid bitmap of that size that has no digit set.
pub new-IsValid :
    (n : ℕ)
    → 0 < n
    → n ≤ 64
    → (bm : PriorityBitmap) × (new n ≡ done bm)
      × IsValid bm
      × (length bm.group_table ≡ n)
      × ((p : ℕ) → digit bm p ≡ 0)
unfolding new
new-IsValid n h h' = (
  record { group_map = 0; group_table = replicate n 0 },
  ground arith,
  record {
    some_group = omega (arith, length-replicate {A = ℕ} n 0);
    few_groups = omega (arith, length-replicate {A = ℕ} n 0);
    words = λ g. omega (arith, get_or-replicate {A = ℕ} n 0 g);
    map_word = omega arith;
    off = λ g e. test_bit-zero g;
    on = λ g e. absurd (e (get_or-replicate {A = ℕ} n 0 g));
  },
  length-replicate n 0,
  λ p. ap (λ w. test_bit w (p % 64)) (get_or-replicate n 0 (p / 64)) ∙ test_bit-zero (p % 64),
)

module _ (bm : PriorityBitmap) (prio : ℕ) (v : IsValid bm) (inside : prio < capacity bm) where
  group_in : prio / 64 < length bm.group_table
  group_in = omega arith

  abbrev old : ℕ
  old = word bm (prio / 64)

  read : get_elem? bm.group_table (prio / 64) ≡ some old
  read = get_elem?-eq-get_or bm.group_table (prio / 64) 0 group_in

  abbrev after_set : PriorityBitmap
  after_set = record {
    group_map = bit_or bm.group_map (shl_one 64 (prio / 64));
    group_table = set_elem bm.group_table (prio / 64) (bit_or old (shl_one 64 (prio % 64)));
  }

  word-after_set :
      (g : ℕ)
      → word after_set g
        ≡ (if prio / 64 == g then bit_or old (shl_one 64 (prio % 64)) else word bm g)
  word-after_set g = get_or-set bm.group_table (prio / 64) g _ 0 group_in

  set_word_ne : bit_or old (shl_one 64 (prio % 64)) ≢ 0
  set_word_ne e = ground (
    arith,
    test_bit-set 64 old (prio % 64) (prio % 64) (omega arith),
    ap (λ w. test_bit w (prio % 64)) e,
    test_bit-zero (prio % 64),
  )

  after_set-IsValid : IsValid after_set
  after_set-IsValid = record {
    some_group = omega (
      arith,
      length-set bm.group_table (prio / 64) (bit_or old (shl_one 64 (prio % 64))),
      v.some_group,
    );
    few_groups = omega (
      arith,
      length-set bm.group_table (prio / 64) (bit_or old (shl_one 64 (prio % 64))),
      v.few_groups,
    );
    words = λ g. ground (
      arith,
      word-after_set g,
      v.words g,
      v.words (prio / 64),
      bit_or-lt 64 old (shl_one 64 (prio % 64)),
      shl_one-pow 64 (prio % 64) (omega arith),
    );
    map_word =
        bit_or-lt 64 _ _ v.map_word
          (omega (arith, shl_one-pow 64 (prio / 64) (omega (arith, v.few_groups))));
    off = λ g e. ground (
      arith,
      word-after_set g,
      set_word_ne,
      v.off g,
      test_bit-set 64 bm.group_map (prio / 64) g (omega (arith, v.few_groups)),
    );
    on = λ g e. ground (
      arith,
      word-after_set g,
      v.on g,
      test_bit-set 64 bm.group_map (prio / 64) g (omega (arith, v.few_groups)),
    );
  }

  digit-after_set : (q : ℕ) → digit after_set q ≡ (if prio == q then 1 else digit bm q)
  digit-after_set q = elim (eq-cases (prio / 64) (q / 64)) [
    | inl same ↦
        ground
          (arith, word-after_set (q / 64), test_bit-set 64 old (prio % 64) (q % 64) (omega arith))
    | inr other ↦ ground (arith, word-after_set (q / 64))
  ]

  abbrev new_word : ℕ
  new_word = cleared old prio

  abbrev after_clear : PriorityBitmap
  after_clear = record {
    group_map =
        (if new_word == 0
          then bit_and bm.group_map (bit_not 64 (shl_one 64 (prio / 64)))
          else bm.group_map);
    group_table = set_elem bm.group_table (prio / 64) new_word;
  }

  word-after_clear : (g : ℕ) → word after_clear g ≡ (if prio / 64 == g then new_word else word bm g)
  word-after_clear g = get_or-set bm.group_table (prio / 64) g _ 0 group_in

  length-after_clear : length after_clear.group_table ≡ length bm.group_table
  length-after_clear = length-set bm.group_table (prio / 64) new_word

  -- A digit of the group map after `clear`: only the emptied group's is cleared.
  map-after_clear :
      (g : ℕ)
      → test_bit after_clear.group_map g ≡ (
          if new_word == 0
          then (if prio / 64 == g then 0 else test_bit bm.group_map g)
          else test_bit bm.group_map g)
  map-after_clear g = elim (eq-cases new_word 0) [
    | inl e ↦
        rw
          (e, test_bit-clear 64 bm.group_map (prio / 64) g v.map_word (omega (arith, v.few_groups)))
    | inr e ↦ rw (ne→== new_word 0 e)
  ]

  after_clear-IsValid : IsValid after_clear
  after_clear-IsValid = record {
    some_group = omega (arith, length-after_clear, v.some_group);
    few_groups = omega (arith, length-after_clear, v.few_groups);
    words = λ g. ground (
      arith,
      word-after_clear g,
      v.words g,
      bit_and-lt 64 old (bit_not 64 (shl_one 64 (prio % 64))) (v.words (prio / 64)),
    );
    map_word = ground (
      arith,
      v.map_word,
      bit_and-lt 64 bm.group_map (bit_not 64 (shl_one 64 (prio / 64))) v.map_word,
    );
    off = λ g e. ground (arith, word-after_clear g, map-after_clear g, v.off g);
    on = λ g e. ground (arith, word-after_clear g, map-after_clear g, v.on g, was_on);
  }
    where
      was_on : new_word ≢ 0 → old ≢ 0
      was_on ne e = ne (ap (λ w. cleared w prio) e ∙ bit_and-bitwise 0 _)

  digit-after_clear : (q : ℕ) → digit after_clear q ≡ (if prio == q then 0 else digit bm q)
  digit-after_clear q = elim (eq-cases (prio / 64) (q / 64)) [
    | inl same ↦ ground (
      arith,
      word-after_clear (q / 64),
      test_bit-clear 64 old (prio % 64) (q % 64) (v.words (prio / 64)) (omega arith),
    )
    | inr other ↦ ground (arith, word-after_clear (q / 64))
  ]

  -- On a valid bitmap and a priority below the capacity, `set` does not panic, keeps the bitmap
  -- valid and of the same size, and makes exactly the digit of that priority 1.
  pub set_lem :
      (bm' : PriorityBitmap) × (set bm prio ≡ done bm')
      × IsValid bm'
      × (length bm'.group_table ≡ length bm.group_table)
      × ((q : ℕ) → digit bm' q ≡ (if prio == q then 1 else digit bm q))
  unfolding set
  set_lem = (
    after_set,
    rw read,
    after_set-IsValid,
    length-set bm.group_table (prio / 64) _,
    digit-after_set,
  )

  -- On a valid bitmap and a priority below the capacity, `clear` does not panic, keeps the bitmap
  -- valid and of the same size, and makes exactly the digit of that priority 0.
  pub clear_lem :
      (bm' : PriorityBitmap) × (clear bm prio ≡ done bm')
      × IsValid bm'
      × (length bm'.group_table ≡ length bm.group_table)
      × ((q : ℕ) → digit bm' q ≡ (if prio == q then 0 else digit bm q))
  unfolding clear
  clear_lem = (after_clear, rw read, after_clear-IsValid, length-after_clear, digit-after_clear)

  -- On a valid bitmap and a priority below the capacity, `is_set` does not panic and tells whether the
  -- digit of that priority is 1.
  pub is_set_lem : is_set bm prio ≡ done (digit bm prio == 1)
  unfolding is_set
  is_set_lem = rw (read, bit_and-shr old (prio % 64)) (ground (arith, test_bit-le old (prio % 64)))

-- `clear_all` of a valid bitmap leaves a valid bitmap of the same size with no digit set.
pub clear_all_lem :
    (bm : PriorityBitmap)
    → IsValid bm
    → IsValid (clear_all bm)
      × (length (clear_all bm).group_table ≡ length bm.group_table)
      × ((q : ℕ) → digit (clear_all bm) q ≡ 0)
unfolding clear_all new
clear_all_lem bm v =
    let n = length bm.group_table in
    let (bm', e, ok, size, empty) = new-IsValid n v.some_group v.few_groups in
    let same : bm' ≡ clear_all bm = ground (arith, e, v.some_group, v.few_groups) in
    subst (λ b. IsValid b × (length b.group_table ≡ n) × ((q : ℕ) → digit b q ≡ 0)) same
      (ok, size, empty)
