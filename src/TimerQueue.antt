-- ===== src/TimerQueue.antt =====
-- modules/timer/src/lib.rs: the deadline queue that the timer interrupt drains. A callback and its
-- data pointer are numbers; what a drain calls is returned as the list of entries that it fired, in
-- order. The loops go over the indices below `len`, so the length is fuel enough for them.
pub mod Minimum
pub mod Drain
pub mod Cancel
mod Tests
use rt_async.Base.{
  ℕ, zero, suc, ◌+◌, Bool, true, false, Option, none, some, List, [], ◌∷◌, ◌==◌, if◌then◌else◌, ltb,
  leb, length, get_elem?, min,
}
use rt_async.Base.Outcome.{Outcome, done, panic, ◌>>=◌, unwrap}
use rt_async.External.{VecSeq}

pub record Entry : Type 0 where
  pub deadline : ℕ
  pub callback : ℕ
  pub payload : ℕ

-- `TimerQueue<N>`
pub record TimerQueue : Type 0 where
  pub limit : ℕ
  pub entries : List Entry

unfoldable pub new : ℕ → TimerQueue
new limit = record { limit = limit; entries = [] }

-- `entries.iter().map(|e| e.deadline).min()`
unfoldable pub min_deadline : List Entry → Option ℕ
min_deadline [] = none
min_deadline (e ∷ es) = elim (min_deadline es) [
  | none ↦ some e.deadline
  | some d ↦ some (min e.deadline d)
]

module _ (vec : VecSeq Entry) where
  -- `Ok(is_earliest)` is `some`, `Err(())` is `none`.
  unfoldable pub try_schedule : TimerQueue → Entry → Outcome (TimerQueue × Option Bool)
  try_schedule q entry = elim (vec.push q.limit q.entries entry) [
    | none ↦ done (q, none)
    | some entries ↦ do
      new_min ← unwrap (min_deadline entries)
      done (
        record q { entries = entries },
        some (elim (min_deadline q.entries) [ none ↦ true | some prev ↦ ltb new_min prev ]),
      )
  ]

  unfoldable pub schedule : TimerQueue → Entry → Outcome (TimerQueue × Bool)
  schedule q entry = do
    (q', answer) ← try_schedule q entry
    is_earliest ← unwrap answer
    done (q', is_earliest)

  -- The loop of `cancel` from index `i` on.
  unfoldable pub cancel_from : ℕ → ℕ → List Entry → ℕ → Outcome (List Entry × Bool)
  cancel_from zero i entries payload = done (entries, false)
  cancel_from (suc fuel) i entries payload = elim (get_elem? entries i) [
    | none ↦ done (entries, false)
    | some e ↦ elim (e.payload == payload) [
      | true ↦ do (_, rest) ← unwrap (vec.swap_remove entries i); done (rest, true)
      | false ↦ cancel_from fuel (i + 1) entries payload
    ]
  ]

  unfoldable pub cancel : TimerQueue → ℕ → Outcome (TimerQueue × Bool)
  cancel q payload = do
    (entries, found) ← cancel_from (length q.entries) 0 q.entries payload
    done (record q { entries = entries }, found)

  -- The loop of `dequeue_expired` from index `i` on: the entries that it fires, and those it leaves.
  unfoldable pub drain_from : ℕ → ℕ → List Entry → ℕ → Outcome (List Entry × List Entry)
  drain_from zero i entries now = done ([], entries)
  drain_from (suc fuel) i entries now = elim (get_elem? entries i) [
    | none ↦ done ([], entries)
    | some e ↦ elim (leb e.deadline now) [
      | true ↦ elim (vec.swap_remove entries i) [
        | none ↦ panic
        | some (entry, rest) ↦ do
          (fired, left) ← drain_from fuel i rest now
          done (entry ∷ fired, left)
      ]
      | false ↦ drain_from fuel (i + 1) entries now
    ]
  ]

  -- The queue afterwards, the entries fired, and the next deadline.
  unfoldable pub dequeue_expired : TimerQueue → ℕ → Outcome (TimerQueue × List Entry × Option ℕ)
  dequeue_expired q now = do
    (fired, left) ← drain_from (length q.entries) 0 q.entries now
    done (record q { entries = left }, fired, min_deadline left)
