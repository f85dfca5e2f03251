-- ===== src/TimerQueue/Minimum.antt =====
-- The earliest deadline of timer/src/lib.rs, and what `try_schedule` answers.
use rt_async.Base.{
  ◌&&◌, lt-cases, ◌↔◌, ℕ, ◌≤◌, ◌<◌, ◌≡◌, refl, ◌⊎◌, inl, inr, Bool, true, Option, none, some, List,
  [], ◌∷◌, ◌++◌, ltb, length, All, arith, min,
}
use rt_async.Base.Outcome.{done}
use rt_async.External.{VecSeq}
use rt_async.TimerQueue.{Entry, TimerQueue, min_deadline, try_schedule}

-- Some entry has this deadline.
abbrev pub Attained : ℕ → List Entry → Type 0
Attained d [] = ⊥
Attained d (e ∷ es) = (e.deadline ≡ d) ⊎ Attained d es

-- `d` is the earliest deadline.
abbrev pub IsEarliest : ℕ → List Entry → Type 0
IsEarliest d es = All (λ (e : Entry). d ≤ e.deadline) es × Attained d es

abbrev pub Minimum : List Entry → Option ℕ → Type 0
Minimum es r = ((es ≡ []) × (r ≡ none)) ⊎ ((d : ℕ) × (r ≡ some d) × IsEarliest d es)

All-weaken :
    (c d : ℕ) (es : List Entry)
    → c ≤ d
    → All (λ (e : Entry). d ≤ e.deadline) es
    → All (λ (e : Entry). c ≤ e.deadline) es
All-weaken c d [] h a = tt
All-weaken c d (e ∷ es) h a = (omega (arith, a.0), All-weaken c d es h a.1)

-- `min_deadline` is `None` on no entries only, and otherwise the earliest deadline.
pub min_deadline_lem : (es : List Entry) → Minimum es (min_deadline es)
unfolding min_deadline
min_deadline_lem [] = inl (refl, refl)
min_deadline_lem (e ∷ es) = elim (min_deadline_lem es) [
  | inl (empty, eq) ↦
      rw (eq, min_deadline) (inr (e.deadline, refl, ((omega arith, rw empty tt), inl refl)))
  | inr (d, eq, (low, at)) ↦ elim (lt-cases e.deadline d) [
    | inl below ↦ inr (
      e.deadline,
      ground (arith, eq),
      ((omega arith, All-weaken e.deadline d es (omega arith) low), inl refl),
    )
    | inr above ↦ inr (d, ground (arith, eq), ((above, low), inr at))
  ]
]

module _ (vec : VecSeq Entry) (q : TimerQueue) (entry : Entry) where
  abbrev pub with_entry : TimerQueue
  with_entry = record q { entries = q.entries ++ (entry ∷ []) }

  -- The queue was empty, or the new deadline is below all that are in it.
  abbrev pub IsNewEarliest : Type 0
  IsNewEarliest = All (λ (e : Entry). entry.deadline < e.deadline) q.entries

  min-append :
      (es : List Entry)
      → min_deadline (es ++ (entry ∷ []))
        ≡ some (elim (min_deadline es) [ none ↦ entry.deadline | some d ↦ min d entry.deadline ])
  unfolding min_deadline
  min-append [] = refl
  min-append (e ∷ es) = ground (arith, min-append es)

  -- The answer of `try_schedule` on these entries.
  abbrev answer : List Entry → Bool
  answer es = elim (min_deadline es) [ none ↦ true | some d ↦ ltb (min d entry.deadline) d ]

  answer-cons :
      (e : Entry) (es : List Entry) → answer (e ∷ es) ≡ (ltb entry.deadline e.deadline && answer es)
  unfolding min_deadline
  answer-cons e es = ground arith

  earliest :
      (es : List Entry) → answer es ≡ true → All (λ (e : Entry). entry.deadline < e.deadline) es
  earliest [] h = tt
  earliest (e ∷ es) h =
      (ground (arith, answer-cons e es), earliest es (ground (arith, answer-cons e es)))

  answer_earliest :
      (es : List Entry) → All (λ (e : Entry). entry.deadline < e.deadline) es → answer es ≡ true
  unfolding min_deadline
  answer_earliest [] h = refl
  answer_earliest (e ∷ es) h = rw (answer-cons e es) (ground (arith, answer_earliest es h.1))

  -- A full queue refuses the entry and stays as it is. Otherwise the entry is added at the end, and
  -- the answer is `true` exactly if its deadline is below every deadline in the queue.
  pub try_schedule_lem :
      ((q.limit ≤ length q.entries) × (try_schedule vec q entry ≡ done (q, none)))
      ⊎ ((answer : Bool) × (length q.entries < q.limit)
          × (try_schedule vec q entry ≡ done (with_entry, some answer))
          × ((answer ≡ true) ↔ IsNewEarliest))
  unfolding try_schedule
  try_schedule_lem = elim (lt-cases (length q.entries) q.limit) [
    | inr full ↦ inl (full, ground (arith, vec.push_full q.limit q.entries entry full))
    | inl room ↦ inr (
      answer q.entries,
      room,
      ground (arith, vec.push_room q.limit q.entries entry room, min-append q.entries),
      (earliest q.entries, answer_earliest q.entries),
    )
  ]
