-- ===== src/Platform/Start.antt =====
-- The order in which `start` enables interrupts.
use rt_async.Base.{
  ◌^◌, ◌-◌, sym, subst, ℕ, zero, suc, ◌≡◌, ◌⊎◌, inl, inr, true, false, List, [], ◌∷◌, some, refl,
  ◌∙◌, ap,
}
use rt_async.Base.Outcome.{Outcome, done, panic}
use rt_async.Device.{Bus}
use rt_async.Driver.{get_slot}
use rt_async.Clint as Clint
use rt_async.Platform.{
  interrupts, msi, mei, far_deadline, mtimer, late_init, Hart, Machine, Statement, start_body,
  execute, execute_all, start, enable_mtimer, enable_mei, enable_msi, enable_interrupts,
}

abbrev pub take : ℕ → List Statement → List Statement
take n [] = []
take zero (s ∷ statements) = []
take (suc n) (s ∷ statements) = s ∷ take n statements

-- The software interrupt is not enabled alone: the external and the timer interrupt are enabled as well.
abbrev pub IsSafePoint : {S : Type 0} → Outcome (Machine S) → Type 0
IsSafePoint panic = ⊥
IsSafePoint (done m) = (m.hart.msie ≡ false) ⊎ ((m.hart.meie ≡ true) × (m.hart.mtie ≡ true))

abbrev pub all_enabled : Hart
all_enabled = record { mie = true; mtie = true; meie = true; msie = true }

module _ {S : Type 0} (bus : Bus S) (board_late_init : Machine S → Machine S) (m : Machine S) where
  -- The machine with the farthest deadline
  timed : Machine S
  timed = record {
    hart = (board_late_init m).hart;
    clint = Clint.set_deadline bus (board_late_init m).clint (2 ^ 64 - 1);
  }

  first_two :
      (device : ℕ) (rest : List Statement)
      → get_slot (board_late_init m).clint.timer ≡ some device
      → execute_all bus board_late_init (late_init ∷ far_deadline ∷ rest) m
        ≡ execute_all bus board_late_init rest timed
  unfolding execute_all execute timed
  first_two device rest there = rw there refl

  after_two :
      (k : ℕ)
      → timed.hart.msie ≡ false
      → IsSafePoint
          (execute_all bus board_late_init (take k (mtimer ∷ mei ∷ msi ∷ interrupts ∷ [])) timed)
  unfolding execute_all execute enable_mtimer enable_mei enable_msi enable_interrupts
  after_two zero off = inl off
  after_two (suc zero) off = inl off
  after_two (suc (suc zero)) off = inl off
  after_two (suc (suc (suc zero))) off = inr (refl, refl)
  after_two (suc (suc (suc (suc k)))) off = inr (refl, refl)

  last_four :
      execute_all bus board_late_init (mtimer ∷ mei ∷ msi ∷ interrupts ∷ []) timed
      ≡ done (record timed { hart = all_enabled })
  unfolding execute_all execute enable_mtimer enable_mei enable_msi enable_interrupts
  last_four = refl

  -- `start` with a timer in its slot, the software interrupt not enabled before it, and a hook of
  -- the board that leaves the enable bits and the slot alone: it ends with all interrupts enabled,
  -- and at every point of it where the software interrupt is enabled, the external and the timer
  -- interrupt are.
  pub start_lem :
      (device : ℕ)
      → m.hart.msie ≡ false
      → (board_late_init m).hart ≡ m.hart
      → get_slot (board_late_init m).clint.timer ≡ some device
      → ((q : Machine S) × (start bus board_late_init m ≡ done q) × (q.hart ≡ all_enabled))
        × ((n : ℕ) → IsSafePoint (execute_all bus board_late_init (take n start_body) m))
  start_lem device off same there = (total, points)
    where
      total : (q : Machine S) × (start bus board_late_init m ≡ done q) × (q.hart ≡ all_enabled)
      total = (
        record timed { hart = all_enabled },
        unfold start in first_two device (mtimer ∷ mei ∷ msi ∷ interrupts ∷ []) there ∙ last_four,
        refl,
      )

      points : (n : ℕ) → IsSafePoint (execute_all bus board_late_init (take n start_body) m)
      points zero = unfold execute_all in inl off
      points (suc zero) = unfold execute_all in unfold execute in inl (ap (λ h. h.msie) same ∙ off)
      points (suc (suc k)) =
          subst IsSafePoint
            (sym (first_two device (take k (mtimer ∷ mei ∷ msi ∷ interrupts ∷ [])) there))
            (after_two k (unfold timed in ap (λ h. h.msie) same ∙ off))
