-- ===== src/Serial/Tests.antt =====
-- A run of serial_ns16550a.rs: a task waits, two bytes come, and the task takes the first.
use rt_async.Base.{List, none, ◌⊎◌, ℕ, ◌≡◌, Option, some, [], ◌∷◌, refl}
use rt_async.Base.Outcome.{Outcome, done, panic}
use rt_async.Serial.{
  RxState, pending, new, rx_push, rx_pop, rx_wake, rx_drain, rx_handler, register, poll, ns16550a,
  polled_only,
}
use rt_async.Serial.Ring.{contents}
use rt_async.Serial.Wakeup.{
  Quiet, Answers, poll-Quiet, Reach, here, next, handles, registers, Reach-Quiet,
}

abbrev state : {A : Type 0} → Outcome (RxState × A) → RxState
state (done (s, a)) = s
state panic = new

abbrev waiting : RxState
waiting = state (register new 4)

register_run : register new 4 ≡ done (waiting, pending)
unfolding register new rx_pop
register_run = refl

abbrev filled : RxState
filled = state (rx_handler waiting (65 ∷ (66 ∷ [])))

handler_run : rx_handler waiting (65 ∷ (66 ∷ [])) ≡ done (filled, some 4)
unfolding register new rx_pop rx_handler rx_drain rx_push rx_wake
handler_run = refl

contents_run : contents filled ≡ 65 ∷ (66 ∷ [])
unfolding register new rx_pop rx_handler rx_drain rx_push rx_wake
contents_run = refl

reach_waiting : Reach new waiting
reach_waiting = next here (registers 4 pending register_run)

reach_filled : Reach new filled
reach_filled = next reach_waiting (handles (65 ∷ (66 ∷ [])) (some 4) handler_run)

Reach-Quiet_example : Quiet filled
Reach-Quiet_example = Reach-Quiet reach_filled

waiting-Quiet : Quiet waiting
waiting-Quiet = Reach-Quiet reach_waiting

filled-Quiet : Quiet filled
filled-Quiet = Reach-Quiet reach_filled

abbrev later : List (List ℕ)
later = (65 ∷ []) ∷ ((66 ∷ []) ∷ [])

poll-Quiet_example :
    ((some ns16550a ≡ none) × (poll (some ns16550a) waiting 5 later ≡ panic))
    ⊎ (((some ns16550a ≡ some polled_only)
          × (poll (some ns16550a) waiting 5 later ≡ done (waiting, none)))
        ⊎ ((some ns16550a ≡ some ns16550a)
            × ((s' : RxState) × (answer : Option ℕ) × (poll (some ns16550a) waiting 5 later
                  ≡ done (s', answer))
                × Quiet s'
                × Answers waiting 5 later s' answer)))
poll-Quiet_example = poll-Quiet (some ns16550a) waiting 5 later waiting-Quiet
