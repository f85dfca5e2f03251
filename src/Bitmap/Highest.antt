-- ===== src/Bitmap/Highest.antt =====
-- `highest` and `pop_highest` of priority_bitmap.rs against the digits of all priorities.
use rt_async.Base.{
  ℕ, ◌+◌, ◌*◌, ◌/◌, ◌%◌, ◌<◌, ◌≡◌, ap, ◌≢◌, ◌∙◌, ◌⊎◌, inl, inr, true, false, some, none, length,
  get_elem?-eq-get_or, ◌==◌, if◌then◌else◌, eq-cases, lt-cases, get_or-above, arith, ne→==,
}
use rt_async.Base.Bits.{
  test_bit, test_bit-zero, trailing_zeros, trailing_zeros_lem, trailing_zeros-below,
}
use rt_async.Base.Outcome.{done}
use rt_async.Bitmap.{PriorityBitmap, capacity, highest, is_empty, pop_highest}
use rt_async.Bitmap.Digits.{word, digit, IsValid, clear_lem}

-- No priority is set.
abbrev pub NoneSet : PriorityBitmap → Type 0
NoneSet bm = (q : ℕ) → digit bm q ≡ 0

-- `p` is set, inside the capacity, and no smaller number is.
pub record IsHighest (bm : PriorityBitmap) (p : ℕ) : Type 0 where
  pub is_in : p < capacity bm
  pub on : digit bm p ≡ 1
  pub least : (q : ℕ) → q < p → digit bm q ≡ 0

module _ (bm : PriorityBitmap) (v : IsValid bm) where
  word-off : (g : ℕ) → test_bit bm.group_map g ≡ 0 → word bm g ≡ 0
  word-off g e = elim (eq-cases (word bm g) 0) [
    | inl z ↦ z
    | inr nz ↦ absurd (omega (arith, v.on g nz))
  ]

  digit-off : (q : ℕ) → test_bit bm.group_map (q / 64) ≡ 0 → digit bm q ≡ 0
  digit-off q e = ap (λ w. test_bit w (q % 64)) (word-off (q / 64) e) ∙ test_bit-zero (q % 64)

  none_set : bm.group_map ≡ 0 → NoneSet bm
  none_set e q = digit-off q (ap (λ m. test_bit m (q / 64)) e ∙ test_bit-zero (q / 64))

  module _ (some_set : bm.group_map ≢ 0) where
    abbrev group : ℕ
    group = trailing_zeros 64 bm.group_map

    group_on : test_bit bm.group_map group ≡ 1
    group_on = (trailing_zeros_lem 64 bm.group_map v.map_word some_set).1

    word_ne : word bm group ≢ 0
    word_ne e = omega (arith, v.off group e, group_on)

    group_in : group < length bm.group_table
    group_in = elim (lt-cases group (length bm.group_table)) [
      | inl h ↦ h
      | inr h ↦ absurd (word_ne (get_or-above bm.group_table group 0 h))
    ]

    abbrev found : ℕ
    found = group * 64 + trailing_zeros 64 (word bm group)

    below_word : trailing_zeros 64 (word bm group) < 64
    below_word = (trailing_zeros_lem 64 (word bm group) (v.words group) word_ne).0

    found-group : found / 64 ≡ group
    found-group = omega (arith, below_word)

    found_place : found % 64 ≡ trailing_zeros 64 (word bm group)
    found_place = omega (arith, below_word)

    found-IsHighest : IsHighest bm found
    found-IsHighest = record {
      is_in = omega (arith, below_word, group_in);
      on =
          rw (found-group, found_place)
            ((trailing_zeros_lem 64 (word bm group) (v.words group) word_ne).1);
      least = λ q h. elim (lt-cases (q / 64) group) [
        | inl lower ↦ digit-off q (trailing_zeros-below 64 bm.group_map (q / 64) lower)
        | inr same ↦
            let e : q / 64 ≡ group = omega (arith, below_word) in
            rw e (trailing_zeros-below 64 (word bm group) (q % 64) (omega (arith, below_word)))
      ];
    }

    highest-found : highest bm ≡ done (some found)
    unfolding highest
    highest-found =
        rw (ne→== bm.group_map 0 some_set, get_elem?-eq-get_or bm.group_table group 0 group_in)

  -- On a valid bitmap `highest` never panics: it returns `None` exactly when nothing is set, and
  -- otherwise the smallest priority that is set, which lies below the capacity.
  pub highest_lem :
      ((highest bm ≡ done none) × NoneSet bm)
      ⊎ ((p : ℕ) × (highest bm ≡ done (some p)) × IsHighest bm p)
  unfolding highest
  highest_lem = elim (eq-cases bm.group_map 0) [
    | inl e ↦ inl (rw e, none_set e)
    | inr ne ↦ inr (found ne, highest-found ne, found-IsHighest ne)
  ]

  -- On a valid bitmap `is_empty`, which reads the group map alone, is true exactly if no priority is
  -- set.
  pub is_empty_lem :
      ((is_empty bm ≡ true) × NoneSet bm) ⊎ ((is_empty bm ≡ false) × ((p : ℕ) × IsHighest bm p))
  unfolding is_empty
  is_empty_lem = elim (eq-cases bm.group_map 0) [
    | inl e ↦ inl (rw e, none_set e)
    | inr ne ↦ inr (ne→== bm.group_map 0 ne, (found ne, found-IsHighest ne))
  ]

  -- `pop_highest` on a valid bitmap: with nothing set it returns `None` and changes nothing;
  -- otherwise it returns the smallest set priority and clears that one alone.
  pub pop_highest_lem :
      ((pop_highest bm ≡ done (none, bm)) × NoneSet bm)
      ⊎ ((p : ℕ) × (bm' : PriorityBitmap) × (pop_highest bm ≡ done (some p, bm'))
          × IsHighest bm p
          × IsValid bm'
          × ((q : ℕ) → digit bm' q ≡ (if p == q then 0 else digit bm q)))
  unfolding pop_highest
  pop_highest_lem = elim highest_lem [
    | inl (e, z) ↦ inl (rw e, z)
    | inr (p, e, h) ↦
        let (bm', c, ok, _, d) = clear_lem bm p v h.is_in in inr (p, bm', rw (e, c), h, ok, d)
  ]
