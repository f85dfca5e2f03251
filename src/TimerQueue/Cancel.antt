-- ===== src/TimerQueue/Cancel.antt =====
-- `cancel` of timer/src/lib.rs.
use rt_async.TimerQueue.{done, Outcome, Entry, TimerQueue, cancel_from, cancel}
use rt_async.TimerQueue.Drain.{total, total-append, get-append, removed, moved}
use rt_async.Base.{
  ℕ, ◌+◌, ◌++◌, ◌≡◌, ◌≤◌, length, List, Bool, true, false, none, some, get_elem?, ◌⊎◌, inl, inr,
  refl, ◌∷◌, [], All, All-append, eq-cases, subst, arith, ◌∙◌, true, ◌⊎◌, arith, some, false, ◌≤◌,
  none, Bool, All, ◌≡◌, ℕ, zero, suc, sym, ap,
}
use rt_async.External.{VecSeq}
use mathlib.Core.List.{append_assoc}

module _ (payload : ℕ) where
  abbrev pub NotFor : List Entry → Type 0
  NotFor = All (λ (e : Entry). ¬ (e.payload ≡ payload))

  -- What the loop of `cancel` has done when it stops: it found no entry for the payload and the list
  -- is as it was, or it took one such entry out.
  abbrev pub Cancels : List Entry → Outcome (List Entry × Bool) → Type 0
  Cancels es r =
      (NotFor es × (r ≡ done (es, false)))
      ⊎ ((e : Entry) × (rest : List Entry) × (e.payload ≡ payload)
          × (r ≡ done (rest, true))
          × ((f : Entry → ℕ) → total f rest + f e ≡ total f es))

module _ (vec : VecSeq Entry) (payload : ℕ) where
  cancel_hit :
      (fuel i : ℕ) (es rest : List Entry) (x : Entry)
      → get_elem? es i ≡ some x
      → x.payload ≡ payload
      → vec.swap_remove es i ≡ some (x, rest)
      → cancel_from vec (suc fuel) i es payload ≡ done (rest, true)
  unfolding cancel_from
  cancel_hit fuel i es rest x g h r = ground (arith, g, h, r)

  cancel_skip :
      (fuel i : ℕ) (es : List Entry) (x : Entry)
      → get_elem? es i ≡ some x
      → ¬ (x.payload ≡ payload)
      → cancel_from vec (suc fuel) i es payload ≡ cancel_from vec fuel (i + 1) es payload
  unfolding cancel_from
  cancel_skip fuel i es x g h = ground (arith, g, h)

  cancel_stop :
      (fuel i : ℕ) (es : List Entry)
      → get_elem? es i ≡ none
      → cancel_from vec fuel i es payload ≡ done (es, false)
  unfolding cancel_from
  cancel_stop zero i es g = refl
  cancel_stop (suc fuel) i es g = ground (arith, g)

  cancel_from_lem :
      (fuel : ℕ) (before rest : List Entry)
      → length rest ≤ fuel
      → NotFor payload before
      → Cancels payload
          (before ++ rest)
          (cancel_from vec fuel (length before) (before ++ rest) payload)
  cancel_from_lem fuel before [] h n = inl (
    All-append (λ e. ¬ (e.payload ≡ payload)) before [] n tt,
    cancel_stop fuel (length before) (before ++ []) (get-append before []),
  )
  cancel_from_lem zero before (x ∷ xs) h n = absurd (omega arith)
  cancel_from_lem (suc fuel) before (x ∷ xs) h n = elim (eq-cases x.payload payload) [
    | inl same ↦
        let (rest, r, len, sum) = removed vec before x xs in
        inr (
          x,
          before ++ rest,
          same,
          cancel_hit fuel (length before) _ _ x (get-append before (x ∷ xs)) same r,
          λ f. omega (arith, sum f, total-append f before rest, total-append f before (x ∷ xs)),
        )
    | inr other ↦
        subst (λ es. Cancels payload es (cancel_from vec (suc fuel) (length before) es payload))
          (append_assoc before (x ∷ []) xs)
          (subst (Cancels payload _)
            (ap (λ i. cancel_from vec fuel i ((before ++ (x ∷ [])) ++ xs) payload)
                (sym (moved before x))
              ∙ sym (
                  cancel_skip fuel (length before) _ x
                    (rw (append_assoc before (x ∷ []) xs) (get-append before (x ∷ xs))) other))
            (cancel_from_lem fuel (before ++ (x ∷ [])) xs (omega arith)
              (All-append (λ e. ¬ (e.payload ≡ payload)) before (x ∷ []) n (other, tt))))
  ]

module _ (vec : VecSeq Entry) (q : TimerQueue) (payload : ℕ) where
  -- `cancel` returns. Either no entry is for the payload, the answer is `false` and the queue is as
  -- it was, or the answer is `true` and one entry for the payload, and nothing else, was taken out.
  pub cancel_lem :
      (NotFor payload q.entries × (cancel vec q payload ≡ done (q, false)))
      ⊎ ((e : Entry) × (rest : List Entry) × (e.payload ≡ payload)
          × (cancel vec q payload ≡ done (record q { entries = rest }, true))
          × ((f : Entry → ℕ) → total f rest + f e ≡ total f q.entries))
  unfolding cancel
  cancel_lem = elim (cancel_from_lem vec payload (length q.entries) [] q.entries (omega arith) tt) [
    | inl (n, e) ↦ inl (n, ground (arith, e))
    | inr (x, rest, p, e, sum) ↦ inr (x, rest, p, ground (arith, e), sum)
  ]
