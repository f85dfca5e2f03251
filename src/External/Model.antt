-- ===== src/External/Model.antt =====
-- Containers that behave as the interfaces of `External` say, for the tests.
use rt_async.Base.{
  ◌++◌, length, ltb, if◌then◌else◌, refl, zero, suc, ℕ, Bool, Option, none, some, List, [], ◌∷◌,
  ◌≡◌, ◌<◌, ◌≤◌, arith,
}
use rt_async.External.{IntrusiveList, VecStack, VecSeq}

module _ {A : Type 0} where
  abbrev pop_front : List A → Option (A × List A)
  pop_front [] = none
  pop_front (x ∷ xs) = some (x, xs)

  abbrev pub run_list : IntrusiveList A
  run_list = record {
    push_back = λ xs x. xs ++ (x ∷ []);
    pop_front = pop_front;
    push_back_lem = λ xs x. refl;
    pop_front-nil = refl;
    pop_front-cons = λ x xs. refl;
  }

  abbrev push_top : ℕ → List A → A → Option (List A)
  push_top cap xs x = if ltb (length xs) cap then some (x ∷ xs) else none

  abbrev top : List A → Option A
  top [] = none
  top (x ∷ xs) = some x

  pub push_top_room :
      (cap : ℕ) (xs : List A) (x : A) → length xs < cap → push_top cap xs x ≡ some (x ∷ xs)
  push_top_room cap xs x h = ground (arith, h)

  pub push_top_full : (cap : ℕ) (xs : List A) (x : A) → cap ≤ length xs → push_top cap xs x ≡ none
  push_top_full cap xs x h = ground (arith, h)

  abbrev pub stack : VecStack A
  stack = record {
    push = push_top;
    pop = pop_front;
    last = top;
    push_room = push_top_room;
    push_full = push_top_full;
    pop-nil = refl;
    pop-cons = λ x xs. refl;
    last-nil = refl;
    last-cons = λ x xs. refl;
  }

  abbrev push_end : ℕ → List A → A → Option (List A)
  push_end cap xs x = if ltb (length xs) cap then some (xs ++ (x ∷ [])) else none

  pub push_end_room :
      (cap : ℕ) (xs : List A) (x : A) → length xs < cap → push_end cap xs x ≡ some (xs ++ (x ∷ []))
  push_end_room cap xs x h = ground (arith, h)

  pub push_end_full : (cap : ℕ) (xs : List A) (x : A) → cap ≤ length xs → push_end cap xs x ≡ none
  push_end_full cap xs x h = ground (arith, h)

  abbrev remove : List A → ℕ → Option (A × List A)
  remove [] i = none
  remove (x ∷ xs) zero = some (x, xs)
  remove (x ∷ xs) (suc i) = elim (remove xs i) [ none ↦ none | some (y, ys) ↦ some (y, x ∷ ys) ]

  -- The last element first, the others in order.
  abbrev last_first : List A → List A
  last_first [] = []
  last_first (x ∷ xs) = elim (last_first xs) [ [] ↦ x ∷ [] | l ∷ ys ↦ l ∷ (x ∷ ys) ]

  last_first-append : (xs : List A) (l : A) → last_first (xs ++ (l ∷ [])) ≡ l ∷ xs
  last_first-append [] l = refl
  last_first-append (x ∷ xs) l = ground (arith, last_first-append xs l)

  abbrev swap_remove : List A → ℕ → Option (A × List A)
  swap_remove [] i = none
  swap_remove (x ∷ xs) zero = some (x, last_first xs)
  swap_remove (x ∷ xs) (suc i) = elim (swap_remove xs i) [
    | none ↦ none
    | some (y, ys) ↦ some (y, x ∷ ys)
  ]

  pub swap_remove_last :
      (before : List A) (x : A)
      → swap_remove (before ++ (x ∷ [])) (length before) ≡ some (x, before)
  swap_remove_last [] x = refl
  swap_remove_last (b ∷ before) x = ground (arith, swap_remove_last before x)

  pub swap_remove_inner :
      (before between : List A) (x last : A)
      → swap_remove (before ++ (x ∷ (between ++ (last ∷ [])))) (length before)
        ≡ some (x, before ++ (last ∷ between))
  swap_remove_inner [] between x last = ground (arith, last_first-append between last)
  swap_remove_inner (b ∷ before) between x last =
      ground (arith, swap_remove_inner before between x last)

  abbrev retain : (A → Bool) → List A → List A
  retain keep [] = []
  retain keep (x ∷ xs) = if keep x then x ∷ retain keep xs else retain keep xs

  abbrev pub seq : VecSeq A
  seq = record {
    push = push_end;
    remove = remove;
    swap_remove = swap_remove;
    retain = retain;
    push_room = push_end_room;
    push_full = push_end_full;
    remove_first = λ x xs. refl;
    swap_remove_last = swap_remove_last;
    swap_remove_inner = swap_remove_inner;
    retain-nil = λ keep. refl;
    retain-cons = λ keep x xs. refl;
  }
