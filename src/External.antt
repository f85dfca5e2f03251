-- ===== src/External.antt =====
-- The containers of crates that the repository only depends on: the intrusive list of `cordyceps`
-- and the bounded vector of `heapless`. Each is an interface with its documented behaviour, over
-- the list of the elements that the container holds; the models take it as an argument.
pub mod Model
use rt_async.Base.{
  if◌then◌else◌, Bool, ℕ, ◌≤◌, ◌<◌, ◌≡◌, Option, none, some, List, [], ◌∷◌, ◌++◌, length,
}

-- `cordyceps::List`, front first.
pub record IntrusiveList (A : Type 0) : Type 0 where
  pub push_back : List A → A → List A
  pub pop_front : List A → Option (A × List A)
  pub push_back_lem : (xs : List A) (x : A) → push_back xs x ≡ xs ++ (x ∷ [])
  pub pop_front-nil : pop_front [] ≡ none
  pub pop_front-cons : (x : A) (xs : List A) → pop_front (x ∷ xs) ≡ some (x, xs)

-- `heapless::Vec<A, cap>` used as a stack, the last element first.
pub record VecStack (A : Type 0) : Type 0 where
  pub push : ℕ → List A → A → Option (List A)
  pub pop : List A → Option (A × List A)
  pub last : List A → Option A
  pub push_room : (cap : ℕ) (xs : List A) (x : A) → length xs < cap → push cap xs x ≡ some (x ∷ xs)
  pub push_full : (cap : ℕ) (xs : List A) (x : A) → cap ≤ length xs → push cap xs x ≡ none
  pub pop-nil : pop [] ≡ none
  pub pop-cons : (x : A) (xs : List A) → pop (x ∷ xs) ≡ some (x, xs)
  pub last-nil : last [] ≡ none
  pub last-cons : (x : A) (xs : List A) → last (x ∷ xs) ≡ some x

-- `heapless::Vec<A, cap>` used as a sequence, the first element first. `retain` keeps the elements
-- that pass the test, in order.
pub record VecSeq (A : Type 0) : Type 0 where
  pub push : ℕ → List A → A → Option (List A)
  pub remove : List A → ℕ → Option (A × List A)
  pub swap_remove : List A → ℕ → Option (A × List A)
  pub retain : (A → Bool) → List A → List A
  pub push_room :
      (cap : ℕ) (xs : List A) (x : A) → length xs < cap → push cap xs x ≡ some (xs ++ (x ∷ []))
  pub push_full : (cap : ℕ) (xs : List A) (x : A) → cap ≤ length xs → push cap xs x ≡ none
  pub remove_first : (x : A) (xs : List A) → remove (x ∷ xs) 0 ≡ some (x, xs)
  pub swap_remove_last :
      (before : List A) (x : A)
      → swap_remove (before ++ (x ∷ [])) (length before) ≡ some (x, before)
  pub swap_remove_inner :
      (before between : List A) (x last : A)
      → swap_remove (before ++ (x ∷ (between ++ (last ∷ [])))) (length before)
        ≡ some (x, before ++ (last ∷ between))
  pub retain-nil : (keep : A → Bool) → retain keep [] ≡ []
  pub retain-cons :
      (keep : A → Bool) (x : A) (xs : List A)
      → retain keep (x ∷ xs) ≡ (if keep x then x ∷ retain keep xs else retain keep xs)
