-- ===== src/Bitmap/Tests.antt =====
-- Runs of priority_bitmap.rs on a bitmap of two groups.
use rt_async.Base.Outcome.{Outcome, done, panic, done_injective}
use rt_async.Bitmap.{is_set, pop_highest, PriorityBitmap, new, set, clear, highest}
use rt_async.Bitmap.Digits.{IsValid, digit, new-IsValid, set_lem}
use rt_async.Base.{
  List, sym, subst, ◌∙◌, ℕ, [], ◌∷◌, ◌≡◌, some, none, refl, true, false, arith, length, ◌==◌,
  if◌then◌else◌, ◌⊎◌,
}
use rt_async.Bitmap.Sets.{
  run, perform, holds, asks, found, nothing, pops, looks, run_lem, sets, Behaves, Answer, Operation,
}

-- Priority 70 is set: digit 6 of group 1.
abbrev one_set : PriorityBitmap
one_set = record { group_map = 2; group_table = 0 ∷ (64 ∷ []) }

abbrev empty : PriorityBitmap
empty = record { group_map = 0; group_table = 0 ∷ (0 ∷ []) }

new_run : new 2 ≡ done empty
unfolding new
new_run = refl

set_run : set empty 70 ≡ done one_set
unfolding set
set_run = refl

highest_run : highest one_set ≡ done (some 70)
unfolding highest rt_async.Base.Bits.trailing_zeros
highest_run = refl

clear_run : clear one_set 70 ≡ done empty
unfolding clear
clear_run = refl

full_run : set empty 128 ≡ panic
unfolding set
full_run = refl

-- What a theorem says of the result of a run, it says of the value that the run shows.
IsValid-of_run :
    {r : Outcome PriorityBitmap} {bm bm' : PriorityBitmap}
    → r ≡ done bm
    → r ≡ done bm'
    → IsValid bm
    → IsValid bm'
IsValid-of_run e e' v = subst IsValid (done_injective (sym e ∙ e')) v

empty-IsValid : IsValid empty
empty-IsValid =
    let (bm, e, v, _, _) = new-IsValid 2 (omega arith) (omega arith) in IsValid-of_run e new_run v

one_set-IsValid : IsValid one_set
one_set-IsValid =
    let (bm, e, v, _, _) = set_lem empty 70 empty-IsValid (omega arith) in
    IsValid-of_run e set_run v

abbrev operations : List Operation
operations = sets 70 ∷ sets 3 ∷ looks ∷ pops ∷ asks 3 ∷ pops ∷ []

set_and_pop_run :
    run empty operations
    ≡ done (
      empty,
      nothing ∷ nothing ∷ found (some 3) ∷ found (some 3) ∷ holds false ∷ found (some 70) ∷ [],
    )
unfolding run perform set highest pop_highest is_set clear rt_async.Base.Bits.trailing_zeros
set_and_pop_run = refl

run_lem_example :
    (bm bm' : PriorityBitmap) × (answers : List Answer) × (new 2 ≡ done bm)
    × (run bm operations ≡ done (bm', answers))
    × Behaves 128 (λ q. 0) operations answers (digit bm')
run_lem_example = run_lem 2 operations (omega arith) (omega arith) (omega arith)
