-- ===== src/TimerQueue/Drain.antt =====
-- The drain of timer/src/lib.rs: `dequeue_expired` fires what has expired and nothing else.
use rt_async.Base.{
  length-append, ◌∙◌, lt-cases, zero, suc, sym, ap, ℕ, ◌+◌, ◌≤◌, ◌<◌, ◌≡◌, refl, inl, inr, Option,
  none, some, List, [], ◌∷◌, ◌++◌, length, All, arith, All-append, get_elem?,
}
use rt_async.Base.Outcome.{Outcome, done}
use rt_async.External.{VecSeq}
use rt_async.TimerQueue.{Entry, TimerQueue, min_deadline, drain_from, dequeue_expired}
use rt_async.TimerQueue.Minimum.{Minimum, min_deadline_lem}
use mathlib.Core.List.{append-nil, append_assoc}
use mathlib.Core.Path.{ap₂}

-- The sum of a weight over entries; with a weight of 1 at one entry, how often that entry occurs.
abbrev pub total : (Entry → ℕ) → List Entry → ℕ
total f [] = 0
total f (e ∷ es) = f e + total f es

pub total-append :
    (f : Entry → ℕ) (xs ys : List Entry) → total f (xs ++ ys) ≡ total f xs + total f ys
total-append f [] ys = omega arith
total-append f (x ∷ xs) ys = omega (arith, total-append f xs ys)

-- The two lists hold together what the third holds, each entry as often.
abbrev pub Splits : List Entry → List Entry → List Entry → Type 0
Splits xs ys zs = (f : Entry → ℕ) → total f xs + total f ys ≡ total f zs

abbrev pub Expired : ℕ → List Entry → Type 0
Expired now = All (λ (e : Entry). e.deadline ≤ now)

abbrev pub Pending : ℕ → List Entry → Type 0
Pending now = All (λ (e : Entry). now < e.deadline)

pub moved : (before : List Entry) (x : Entry) → length before + 1 ≡ length (before ++ (x ∷ []))
moved before x = omega (arith, length-append {0} before (x ∷ []))

-- A list that is not empty has a last element.
pub last_of :
    (x : Entry) (xs : List Entry) → (ys : List Entry) × (l : Entry) × (x ∷ xs ≡ ys ++ (l ∷ []))
last_of x [] = ([], x, refl)
last_of x (y ∷ xs) = let (ys, l, e) = last_of y xs in (x ∷ ys, l, ap (λ t. x ∷ t) e)

pub get-append : (xs ys : List Entry) → get_elem? (xs ++ ys) (length xs) ≡ get_elem? ys 0
get-append [] ys = refl
get-append (x ∷ xs) ys = get-append xs ys

pub drain_end : (es : List Entry) → get_elem? es (length es) ≡ none
drain_end [] = refl
drain_end (e ∷ es) = drain_end es

module _ (vec : VecSeq Entry) where
  -- What `swap_remove` leaves after the entries that are kept.
  pub removed :
      (before : List Entry) (x : Entry) (xs : List Entry)
      → (rest : List Entry) × (vec.swap_remove (before ++ (x ∷ xs)) (length before)
          ≡ some (x, before ++ rest))
        × (length rest ≡ length xs)
        × ((f : Entry → ℕ) → total f rest ≡ total f xs)
  removed before x [] =
      ([], rw (append-nil before) (vec.swap_remove_last before x), refl, λ f. refl)
  removed before x (y ∷ ys) =
      let (m, l, e) = last_of y ys in
      (
        l ∷ m,
        rw e (vec.swap_remove_inner before m x l),
        omega (arith, ap (λ t. length t) e, length-append {0} m (l ∷ [])),
        λ f. omega (arith, ap (λ t. total f t) e, total-append f m (l ∷ [])),
      )

module _ (vec : VecSeq Entry) (now : ℕ) where
  -- What the loop has done when it stops.
  abbrev Drains : List Entry → Outcome (List Entry × List Entry) → Type 0
  Drains es r =
      (fired left : List Entry) × (r ≡ done (fired, left))
      × Expired now fired
      × Pending now left
      × Splits fired left es

  drain_hit :
      (fuel i : ℕ) (es rest : List Entry) (x : Entry) {fired left : List Entry}
      → get_elem? es i ≡ some x
      → x.deadline ≤ now
      → vec.swap_remove es i ≡ some (x, rest)
      → drain_from vec fuel i rest now ≡ done (fired, left)
      → drain_from vec (suc fuel) i es now ≡ done (x ∷ fired, left)
  unfolding drain_from
  drain_hit fuel i es rest x g h r e = ground (arith, g, h, r, e)

  drain_skip :
      (fuel i : ℕ) (es : List Entry) (x : Entry)
      → get_elem? es i ≡ some x
      → now < x.deadline
      → drain_from vec (suc fuel) i es now ≡ drain_from vec fuel (i + 1) es now
  unfolding drain_from
  drain_skip fuel i es x g h = ground (arith, g, h)

  drain_stop :
      (fuel i : ℕ) (es : List Entry)
      → get_elem? es i ≡ none
      → drain_from vec fuel i es now ≡ done ([], es)
  unfolding drain_from
  drain_stop zero i es g = refl
  drain_stop (suc fuel) i es g = ground (arith, g)

  drain_lem :
      (fuel : ℕ) (before rest : List Entry)
      → length rest ≤ fuel
      → Pending now before
      → Drains (before ++ rest) (drain_from vec fuel (length before) (before ++ rest) now)
  drain_lem fuel before [] h p = (
    [],
    before ++ [],
    drain_stop fuel (length before) (before ++ []) (get-append before []),
    tt,
    All-append (λ e. now < e.deadline) before [] p tt,
    λ f. omega arith,
  )
  drain_lem zero before (x ∷ xs) h p = absurd (omega arith)
  drain_lem (suc fuel) before (x ∷ xs) h p = elim (lt-cases now x.deadline) [
    | inr expired ↦
        let (rest, r, len, sum) = removed vec before x xs in
        let (fired, left, e, ex, pe, sp) = drain_lem fuel before rest (omega (arith, len)) p in
        (
          x ∷ fired,
          left,
          drain_hit fuel (length before) _ _ x (get-append before (x ∷ xs)) expired r e,
          (expired, ex),
          pe,
          λ f.
              omega
                (arith, sp f, sum f, total-append f before rest, total-append f before (x ∷ xs)),
        )
    | inl later ↦
        let (fired, left, e, ex, pe, sp) =
          drain_lem fuel (before ++ (x ∷ [])) xs (omega arith)
            (All-append (λ e. now < e.deadline) before (x ∷ []) p (later, tt)) in
        (
          fired,
          left,
          drain_skip fuel (length before) _ x (get-append before (x ∷ xs)) later
              ∙ ap₂ (λ i es. drain_from vec fuel i es now) (moved before x)
                  (sym (append_assoc before (x ∷ []) xs))
              ∙ e,
          ex,
          pe,
          λ f. rw (sym (append_assoc before (x ∷ []) xs)) (sp f),
        )
  ]

module _ (vec : VecSeq Entry) (q : TimerQueue) (now : ℕ) where
  -- `dequeue_expired` returns. It fires exactly the entries that have expired, leaves exactly those
  -- that have not, loses and doubles none, and answers the earliest deadline that is left.
  pub dequeue_expired_lem :
      (fired left : List Entry) × (next : Option ℕ) × (dequeue_expired vec q now
        ≡ done (record q { entries = left }, fired, next))
      × Expired now fired
      × Pending now left
      × Splits fired left q.entries
      × Minimum left next
  unfolding dequeue_expired
  dequeue_expired_lem =
      let (fired, left, e, ex, pe, sp) =
        drain_lem vec now (length q.entries) [] q.entries (omega arith) tt in
      (fired, left, min_deadline left, ground (arith, e), ex, pe, sp, min_deadline_lem left)
