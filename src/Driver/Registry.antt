-- ===== src/Driver/Registry.antt =====
-- The registry of driver.rs.
use rt_async.Base.{
  ℕ, zero, suc, ◌+◌, ◌-◌, ◌%◌, ◌<◌, ◌≡◌, ◌≢◌, ◌⊎◌, inl, inr, none, some, ◌==◌, if◌then◌else◌, refl,
  arith, update, Option-cases, lt-cases, subst, sym, ap, ◌∙◌,
}
use rt_async.Base.Outcome.{Outcome, done, panic}
use native.Mathlib.Nat.{mod-lt, mod-eq_of_lt, add-mod_right}
use rt_async.Driver.{DeviceRegistry, set_slot, get_slot, register_from, register, get}

-- Every slot is some number of steps after the cursor.
steps_to : (n next j : ℕ) → next < n → j < n → (m : ℕ) × (m < n) × ((next + m) % n ≡ j)
steps_to n next j hn hj = elim (lt-cases j next) [
  | inr above ↦ (
    j - next,
    omega arith,
    ap (λ x. x % n) {x = next + (j - next)} {y = j} (omega arith) ∙ mod-eq_of_lt hj,
  )
  | inl below ↦ (
    j + n - next,
    omega arith,
    ap (λ x. x % n) {x = next + (j + n - next)} {y = j + n} (omega arith)
        ∙ add-mod_right j n
        ∙ mod-eq_of_lt hj,
  )
]

module _ {ℓ} {T : Type ℓ} (r : DeviceRegistry T) (dev : T) (some_slot : 0 < r.capacity)
    (cursor : r.next < r.capacity) where
  -- The device went into the empty slot `idx`, and no other slot changed.
  abbrev pub Registered : Outcome (DeviceRegistry T × ℕ) → Type ℓ
  Registered result =
      (idx : ℕ) × (r' : DeviceRegistry T) × (result ≡ done (r', idx))
      × (idx < r.capacity)
      × (get r idx ≡ none)
      × ((j : ℕ) → get r' j ≡ (if idx == j % r.capacity then some dev else get r j))
      × (r'.capacity ≡ r.capacity)
      × (r'.next < r'.capacity)

  abbrev pub Exhausted : Outcome (DeviceRegistry T × ℕ) → Type ℓ
  Exhausted result = ((j : ℕ) → get r j ≢ none) × (result ≡ panic)

  get_lem : (j : ℕ) → get r j ≡ get_slot (r.slots (j % r.capacity))
  unfolding get
  get_lem j = ground (arith, some_slot)

  from_lem :
      (fuel i : ℕ)
      → i + fuel ≡ r.capacity
      → ((m : ℕ) → m < i → get_slot (r.slots ((r.next + m) % r.capacity)) ≢ none)
      → Registered (register_from r dev fuel i) ⊎ Exhausted (register_from r dev fuel i)
  unfolding register_from
  from_lem zero i e full = inr (
    (λ j free.
        let (m, inside, at) =
          steps_to r.capacity r.next (j % r.capacity) cursor (mod-lt j some_slot) in
        full m (omega arith) (ap (λ x. get_slot (r.slots x)) at ∙ sym (get_lem j) ∙ free)),
    refl,
  )
  from_lem (suc fuel) i e full =
      let idx = (r.next + i) % r.capacity in
      let idx_in : idx < r.capacity = mod-lt (r.next + i) some_slot in
      elim (Option-cases (get_slot (r.slots idx))) [
        | inl free ↦ inl (
          idx,
          record r { slots = update r.slots idx (set_slot dev); next = (idx + 1) % r.capacity },
          rw (free, register_from) refl,
          idx_in,
          get_lem idx ∙ ap (λ x. get_slot (r.slots x)) (mod-eq_of_lt idx_in) ∙ free,
          (λ j. after_get idx j),
          refl,
          mod-lt (idx + 1) some_slot,
        )
        | inr (d, taken) ↦
            subst (λ x. Registered x ⊎ Exhausted x) (sym (rw (taken, register_from) refl))
              (from_lem fuel (i + 1) (omega arith) (λ m below. elim (lt-cases m i) [
                | inl lower ↦ full m lower
                | inr same ↦ λ free.
                    let at : i ≡ m = omega arith in
                    let clash : some d ≡ none =
                      sym taken
                      ∙ ap (λ x. get_slot (r.slots ((r.next + x) % r.capacity))) at
                      ∙ free in
                    some-ne-none clash
              ]))
      ]
    where
      some-ne-none : {x : T} → some x ≡ none → ⊥
      some-ne-none e = cc

      after_get :
          (idx j : ℕ)
          → get
              (record r {
                slots = update r.slots idx (set_slot dev);
                next = (idx + 1) % r.capacity;
              })
              j
            ≡ (if idx == j % r.capacity then some dev else get r j)
      after_get idx j =
          unfold get in unfold set_slot in unfold get_slot in ground (arith, some_slot)

  -- `register` on a registry with slots and its cursor inside: it puts the device into an empty slot,
  -- which it answers, and what is read at an index changes for that slot alone, an index past the end being
  -- taken modulo the capacity; or no slot is empty and it panics.
  pub register_lem : Registered (register r dev) ⊎ Exhausted (register r dev)
  unfolding register
  register_lem = from_lem r.capacity 0 (omega arith) (λ m h. absurd (omega arith))
