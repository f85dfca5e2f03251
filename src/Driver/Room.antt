-- ===== src/Driver/Room.antt =====
-- How many devices a registry of driver.rs holds.
use rt_async.Base.{
  sym, subst, ap, ◌∙◌, ℕ, zero, suc, ◌+◌, ◌%◌, ◌<◌, ◌≤◌, ◌≡◌, ◌≢◌, inl, inr, none, some, ◌==◌,
  if◌then◌else◌, refl, arith, length, length-append, Option-cases, eq-cases, ltb,
}
use rt_async.Base.Outcome.{done}
use native.Mathlib.Nat.{mod-eq_of_lt}
use rt_async.Driver.{DeviceRegistry, get_slot, register, get, iter, iter_below}
use rt_async.Driver.Registry.{register_lem}

module _ {ℓ} {T : Type ℓ} where
  get_inside : (r : DeviceRegistry T) (n : ℕ) → n < r.capacity → get_slot (r.slots n) ≡ get r n
  unfolding get
  get_inside r n inside =
      let there : n % r.capacity ≡ n = mod-eq_of_lt inside in
      let some_slot : 0 < r.capacity = omega arith in ground (arith, there, some_slot)

  below_free :
      (r : DeviceRegistry T) (n : ℕ)
      → n < r.capacity
      → get r n ≡ none
      → length (iter_below r (suc n)) ≡ length (iter_below r n)
  unfolding iter_below
  below_free r n inside free =
      let at = get_inside r n inside ∙ free in
      length-append (iter_below r n) _ ∙ rw at (omega arith)

  below_taken :
      (r : DeviceRegistry T) (n : ℕ) (dev : T)
      → n < r.capacity
      → get r n ≡ some dev
      → length (iter_below r (suc n)) ≡ suc (length (iter_below r n))
  unfolding iter_below
  below_taken r n dev inside taken =
      let at = get_inside r n inside ∙ taken in
      length-append (iter_below r n) _ ∙ rw at (omega arith)

  module _ (r r' : DeviceRegistry T) (dev : T) (idx : ℕ) (free : get r idx ≡ none)
      (changed : (j : ℕ) → get r' j ≡ (if idx == j % r.capacity then some dev else get r j))
      (same : r'.capacity ≡ r.capacity) where
    -- One device more, from the slot that was taken on.
    below_registered :
        (n : ℕ)
        → n ≤ r.capacity
        → length (iter_below r' n) ≡ length (iter_below r n) + (if ltb idx n then 1 else 0)
    unfolding iter_below
    below_registered zero h = ground arith
    below_registered (suc n) h =
        let there : n % r.capacity ≡ n = mod-eq_of_lt (omega arith) in
        let rest = below_registered n (omega arith) in
        elim (eq-cases idx n) [
          | inl at ↦
              let now : get r' n ≡ some dev = changed n ∙ ground (arith, there, at) in
              let before : get r n ≡ none = subst (λ x. get r x ≡ none) at free in
              let more = below_taken r' n dev (omega arith) now in
              let kept = below_free r n (omega arith) before in ground (arith, more, kept, rest, at)
          | inr away ↦
              let now : get r' n ≡ get r n = changed n ∙ ground (arith, there, away) in
              elim (Option-cases (get r n)) [
                | inl empty ↦
                    let same_now = below_free r' n (omega arith) (now ∙ empty) in
                    let same_before = below_free r n (omega arith) empty in
                    ground (arith, same_now, same_before, rest, away)
                | inr (d, taken) ↦
                    let more_now = below_taken r' n d (omega arith) (now ∙ taken) in
                    let more_before = below_taken r n d (omega arith) taken in
                    ground (arith, more_now, more_before, rest, away)
              ]
        ]

  below_full :
      (r : DeviceRegistry T)
      → ((j : ℕ) → get r j ≢ none)
      → (n : ℕ) → n ≤ r.capacity
      → length (iter_below r n) ≡ n
  unfolding iter_below
  below_full r full zero h = refl
  below_full r full (suc n) h = elim (Option-cases (get r n)) [
    | inl free ↦ absurd (full n free)
    | inr (dev, taken) ↦
        below_taken r n dev (omega arith) taken ∙ ap suc (below_full r full n (omega arith))
  ]

  -- On a registry with an empty slot and its cursor inside, `register` does not panic, and the registry
  -- then holds one device more.
  pub register-length :
      (r : DeviceRegistry T) (dev : T)
      → length (iter r) < r.capacity
      → r.next < r.capacity
      → (idx : ℕ) × (r' : DeviceRegistry T) × (register r dev ≡ done (r', idx))
        × (length (iter r') ≡ suc (length (iter r)))
        × (r'.capacity ≡ r.capacity)
        × (r'.next < r'.capacity)
  unfolding iter
  register-length r dev room cursor = elim (register_lem r dev (omega arith) cursor) [
    | inl (idx, r', e, inside, free, changed, same, next) ↦ (
      idx,
      r',
      e,
      subst (λ c. length (iter_below r' c) ≡ suc (length (iter_below r r.capacity))) (sym same)
          (below_registered r r' dev idx free changed same r.capacity (omega arith)
            ∙ ground (arith, inside)),
      same,
      next,
    )
    | inr (full, stops) ↦ absurd (omega (arith, below_full r full r.capacity (omega arith)))
  ]
