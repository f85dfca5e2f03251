-- ===== src/Bitmap/Sets.antt =====
-- The bitmap of priority_bitmap.rs implements a set of priorities: any sequence of its operations
-- answers as the operations on a set do. A set is a function that is 1 at its members.
use rt_async.Base.{
  ◌∙◌, ℕ, ◌*◌, ◌<◌, ◌≤◌, ◌≡◌, ◌⊎◌, inl, inr, Bool, Option, none, some, List, [], ◌∷◌, length, ◌==◌,
  if◌then◌else◌, All, refl, arith, subst, sym, ap,
}
use rt_async.Base.Outcome.{Outcome, done, ◌>>=◌}
use mathlib.Core.Path.{fun_ext}
use rt_async.Bitmap.{
  PriorityBitmap, capacity, new, set, clear, is_set, highest, pop_highest, clear_all,
}
use rt_async.Bitmap.Digits.{
  IsValid, digit, new-IsValid, set_lem, clear_lem, is_set_lem, clear_all_lem,
}
use rt_async.Bitmap.Highest.{highest_lem, pop_highest_lem}

pub data Operation : Type 0 where
  sets clears asks : ℕ → Operation
  empties looks pops : Operation

pub data Answer : Type 0 where
  nothing : Answer
  holds : Bool → Answer
  found : Option ℕ → Answer

unfoldable pub perform : PriorityBitmap → Operation → Outcome (PriorityBitmap × Answer)
perform bm (sets prio) = do bm' ← set bm prio; done (bm', nothing)
perform bm (clears prio) = do bm' ← clear bm prio; done (bm', nothing)
perform bm (asks prio) = do answer ← is_set bm prio; done (bm, holds answer)
perform bm empties = done (clear_all bm, nothing)
perform bm looks = do answer ← highest bm; done (bm, found answer)
perform bm pops = do (answer, bm') ← pop_highest bm; done (bm', found answer)

unfoldable pub run : PriorityBitmap → List Operation → Outcome (PriorityBitmap × List Answer)
run bm [] = done (bm, [])
run bm (op ∷ ops) = do
  (bm', answer) ← perform bm op
  (bm'', answers) ← run bm' ops
  done (bm'', answer ∷ answers)

-- The smallest member below a bound, which is the highest priority
abbrev pub Least : ℕ → (ℕ → ℕ) → Option ℕ → Type 0
Least bound s none = (q : ℕ) → q < bound → s q ≡ 0
Least bound s (some p) = (p < bound) × (s p ≡ 1) × ((q : ℕ) → q < p → s q ≡ 0)

-- What an operation on a set answers, and the set afterwards.
abbrev pub Meant : ℕ → (ℕ → ℕ) → Operation → Answer → (ℕ → ℕ) → Type 0
Meant bound s (sets p) a s' = (a ≡ nothing) × ((q : ℕ) → s' q ≡ (if p == q then 1 else s q))
Meant bound s (clears p) a s' = (a ≡ nothing) × ((q : ℕ) → s' q ≡ (if p == q then 0 else s q))
Meant bound s (asks p) a s' = (a ≡ holds (s p == 1)) × ((q : ℕ) → s' q ≡ s q)
Meant bound s empties a s' = (a ≡ nothing) × ((q : ℕ) → s' q ≡ 0)
Meant bound s looks a s' = (o : Option ℕ) × (a ≡ found o) × Least bound s o × ((q : ℕ) → s' q ≡ s q)
Meant bound s pops a s' =
    ((a ≡ found none) × Least bound s none × ((q : ℕ) → s' q ≡ s q))
    ⊎ ((p : ℕ) × (a ≡ found (some p))
        × Least bound s (some p)
        × ((q : ℕ) → s' q ≡ (if p == q then 0 else s q)))

abbrev pub Behaves : ℕ → (ℕ → ℕ) → List Operation → List Answer → (ℕ → ℕ) → Type 0
Behaves bound s [] [] s' = (q : ℕ) → s' q ≡ s q
Behaves bound s [] (a ∷ answers) s' = ⊥
Behaves bound s (op ∷ ops) [] s' = ⊥
Behaves bound s (op ∷ ops) (a ∷ answers) s' =
    (t : ℕ → ℕ) × Meant bound s op a t × Behaves bound t ops answers s'

-- The priorities that an operation names are below the capacity.
abbrev pub InRange : ℕ → Operation → Type 0
InRange bound (sets p) = p < bound
InRange bound (clears p) = p < bound
InRange bound (asks p) = p < bound
InRange bound empties = Unit {0}
InRange bound looks = Unit {0}
InRange bound pops = Unit {0}

-- The result of an operation or a run is valid and of the same size.
abbrev Keeps : PriorityBitmap → PriorityBitmap → Type 0
Keeps bm bm' = IsValid bm' × (length bm'.group_table ≡ length bm.group_table)

size-pop_highest :
    (bm bm' : PriorityBitmap) (p : ℕ)
    → IsValid bm
    → pop_highest bm ≡ done (some p, bm')
    → length bm'.group_table ≡ length bm.group_table
unfolding pop_highest
size-pop_highest bm bm' p v e = elim (highest_lem bm v) [
  | inl (h, _) ↦ absurd (ground (arith, h, e))
  | inr (q, h, is) ↦
      let (c, e', _, size, _) = clear_lem bm q v is.is_in in
      let same : c ≡ bm' = ground (arith, h, e, e') in
      ap (λ b. length b.group_table) (sym same) ∙ size
]

perform_lem :
    (bm : PriorityBitmap) (op : Operation)
    → IsValid bm
    → InRange (capacity bm) op
    → (bm' : PriorityBitmap) × (a : Answer) × (perform bm op ≡ done (bm', a))
      × Keeps bm bm'
      × Meant (capacity bm) (digit bm) op a (digit bm')
unfolding perform
perform_lem bm (sets p) v h =
    let (bm', e, v', size, d) = set_lem bm p v h in (bm', nothing, rw e refl, (v', size), (refl, d))
perform_lem bm (clears p) v h =
    let (bm', e, v', size, d) = clear_lem bm p v h in
    (bm', nothing, rw e refl, (v', size), (refl, d))
perform_lem bm (asks p) v h =
    (bm, holds (digit bm p == 1), rw (is_set_lem bm p v h) refl, (v, refl), (refl, λ q. refl))
perform_lem bm empties v h =
    let (v', size, d) = clear_all_lem bm v in (clear_all bm, nothing, refl, (v', size), (refl, d))
perform_lem bm looks v h = elim (highest_lem bm v) [
  | inl (e, none_set) ↦
      (bm, found none, rw e refl, (v, refl), (none, refl, (λ q l. none_set q), λ q. refl))
  | inr (p, e, is) ↦ (
    bm,
    found (some p),
    rw e refl,
    (v, refl),
    (some p, refl, (is.is_in, is.on, is.least), λ q. refl),
  )
]
perform_lem bm pops v h = elim (pop_highest_lem bm v) [
  | inl (e, none_set) ↦
      (bm, found none, rw e refl, (v, refl), inl (refl, (λ q l. none_set q), λ q. refl))
  | inr (p, bm', e, is, v', d) ↦ (
    bm',
    found (some p),
    rw e refl,
    (v', size-pop_highest bm bm' p v e),
    inr (p, refl, (is.is_in, is.on, is.least), d),
  )
]

run-Behaves :
    (ops : List Operation) (bm : PriorityBitmap)
    → IsValid bm
    → All (InRange (capacity bm)) ops
    → (bm' : PriorityBitmap) × (answers : List Answer) × (run bm ops ≡ done (bm', answers))
      × Behaves (capacity bm) (digit bm) ops answers (digit bm')
unfolding run
run-Behaves [] bm v h = (bm, [], refl, λ q. refl)
run-Behaves (op ∷ ops) bm v (h, hs) =
    let (bm₁, a, e₁, (v₁, size), meant) = perform_lem bm op v h in
    let cap : capacity bm₁ ≡ capacity bm = ap (λ n. n * 64) size in
    let (bm₂, answers, e₂, rest) =
      run-Behaves ops bm₁ v₁ (subst (λ c. All (InRange c) ops) (sym cap) hs) in
    (
      bm₂,
      a ∷ answers,
      ground (arith, e₁, e₂),
      (digit bm₁, meant, subst (λ c. Behaves c (digit bm₁) ops answers (digit bm₂)) cap rest),
    )

-- From a new bitmap of 1 to 64 groups, any sequence of operations on priorities below the capacity
-- does not panic, and each answers and changes as on a set that is empty at first: `set`, `clear`
-- and `clear_all` change membership, `is_set` tells it, `highest` finds the smallest member, and
-- `pop_highest` also takes it out.
pub run_lem :
    (n : ℕ) (ops : List Operation)
    → 0 < n
    → n ≤ 64
    → All (InRange (n * 64)) ops
    → (bm bm' : PriorityBitmap) × (answers : List Answer) × (new n ≡ done bm)
      × (run bm ops ≡ done (bm', answers))
      × Behaves (n * 64) (λ q. 0) ops answers (digit bm')
run_lem n ops lo hi h =
    let (bm, e, v, size, off) = new-IsValid n lo hi in
    let cap : capacity bm ≡ n * 64 = ap (λ k. k * 64) size in
    let (bm', answers, e', b) =
      run-Behaves ops bm v (subst (λ c. All (InRange c) ops) (sym cap) h) in
    (
      bm,
      bm',
      answers,
      e,
      e',
      subst (λ s. Behaves (n * 64) s ops answers (digit bm')) (fun_ext off)
          (subst (λ c. Behaves c (digit bm) ops answers (digit bm')) cap b),
    )
