-- ===== src/Delay/Race.antt =====
-- Two polls of timer.rs, the second of which preempts the first between `schedule` and `set_deadline`.
use rt_async.Base.{
  ℕ, suc, ◌<◌, ◌≡◌, ◌≢◌, true, false, some, List, [], ◌∷◌, ◌++◌, refl, arith, length, length-append,
  All, inl, inr, All-append, update,
}
use rt_async.Base.Outcome.{Outcome, done, ◌>>=◌}
use rt_async.External.{VecSeq}
use rt_async.TimerQueue.{Entry}
use rt_async.Delay.Compare.{entry_for, enlisted, enlist_lem}
use rt_async.Delay.{TimerDelay, Timers, begin_poll, end_poll, poll, pending, scheduled}

All-earlier :
    (c d : ℕ) (es : List Entry)
    → c < d
    → All (λ (e : Entry). d < e.deadline) es
    → All (λ (e : Entry). c < e.deadline) es
All-earlier c d [] h a = tt
All-earlier c d (e ∷ es) h a = (omega (arith, a.0), All-earlier c d es h a.1)

module _ (vec : VecSeq Entry) where
  -- The poll of `g` runs whole while the poll of `f` stands between `schedule` and `set_deadline`.
  unfoldable pub preempted_poll : Timers → ℕ → ℕ → ℕ → ℕ → ℕ → Outcome Timers
  preempted_poll t f cx g cy now = do
    (t₁, _) ← begin_poll vec t f cx now
    (t₂, _) ← poll vec t₁ g cy now
    end_poll vec t₂ f true

  begin_poll-first :
      (t : Timers) (f cx now : ℕ) (delay : TimerDelay)
      → t.delays f ≡ some delay
      → delay.registered ≡ false
      → now < delay.deadline
      → All (λ (e : Entry). delay.deadline < e.deadline) t.queue.entries
      → length t.queue.entries < t.queue.limit
      → begin_poll vec t f cx now ≡ done (enlisted vec t f cx delay, scheduled true)
  unfolding begin_poll
  begin_poll-first t f cx now delay here fresh early above room =
      elim (enlist_lem vec t f cx delay) [
        | inl (full, _) ↦ absurd (omega arith)
        | inr (answer, _, eq, (_, first)) ↦ ground (arith, here, fresh, early, eq, first above)
      ]

  abbrev ended : Timers → ℕ → ℕ → TimerDelay → Timers
  ended t f cx delay = record t {
    delays =
        update t.delays f
          (some (record { deadline = delay.deadline; registered = true; waker = some cx }));
    compare = delay.deadline;
  }

  end_poll-earliest :
      (t : Timers) (f cx : ℕ) (delay : TimerDelay)
      → t.delays f ≡ some (record delay { waker = some cx })
      → end_poll vec t f true ≡ done (ended t f cx delay)
  unfolding end_poll
  end_poll-earliest t f cx delay here = ground (arith, here)

  enlisted-here :
      (t : Timers) (f cx : ℕ) (delay : TimerDelay)
      → (enlisted vec t f cx delay).delays f ≡ some (record delay { waker = some cx })
  enlisted-here t f cx delay = ground arith

  poll-first :
      (t : Timers) (f cx now : ℕ) (delay : TimerDelay)
      → begin_poll vec t f cx now ≡ done (enlisted vec t f cx delay, scheduled true)
      → poll vec t f cx now ≡ done (ended (enlisted vec t f cx delay) f cx delay, pending)
  unfolding poll
  poll-first t f cx now delay eq = ground (
    arith,
    eq,
    end_poll-earliest (enlisted vec t f cx delay) f cx delay (enlisted-here t f cx delay),
  )

  -- A poll that finds its delay the earliest is preempted, between `schedule` and `set_deadline`, by the
  -- whole poll of a delay with an earlier deadline: nothing panics and both entries wait in the queue, but
  -- the compare register ends at the later deadline.
  pub preempted_poll_lem :
      (t : Timers) (f cx g cy now : ℕ) (late soon : TimerDelay)
      → f ≢ g
      → t.delays f ≡ some late
      → t.delays g ≡ some soon
      → late.registered ≡ false
      → soon.registered ≡ false
      → now < soon.deadline
      → soon.deadline < late.deadline
      → All (λ (e : Entry). late.deadline < e.deadline) t.queue.entries
      → suc (length t.queue.entries) < t.queue.limit
      → (t' : Timers) × (preempted_poll t f cx g cy now ≡ done t')
        × (t'.compare ≡ late.deadline)
        × (t'.queue.entries
            ≡ (t.queue.entries ++ (entry_for vec f late ∷ [])) ++ (entry_for vec g soon ∷ []))
  unfolding preempted_poll
  preempted_poll_lem t f cx g cy now late soon apart here there fresh fresh' early sooner above
        room =
      let t₁ = enlisted vec t f cx late in
      let e₁ = begin_poll-first t f cx now late here fresh (omega arith) above (omega arith) in
      let e₂ = poll-first t₁ g cy now soon (
        begin_poll-first t₁ g cy now soon (ground (arith, there, apart)) fresh' early
          (All-append (λ e. soon.deadline < e.deadline) t.queue.entries _
            (All-earlier soon.deadline late.deadline t.queue.entries sooner above) (sooner, tt))
          (omega (arith, length-append t.queue.entries (entry_for vec f late ∷ []), room))) in
      let t₂ = ended (enlisted vec t₁ g cy soon) g cy soon in
      let e₃ : end_poll vec t₂ f true ≡ done (ended t₂ f cx late) =
        end_poll-earliest t₂ f cx late (ground (arith, apart)) in
      (ended t₂ f cx late, ground (arith, e₁, e₂, e₃), refl, refl)
