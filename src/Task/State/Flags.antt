-- ===== src/Task/State/Flags.antt =====
-- The two flags of task/state.rs: which calls change which, and what each call returns.
use rt_async.Base.{ℕ, ◌*◌, ◌/◌, ◌≡◌, ◌==◌, bit_and, arith, ap}
use rt_async.Base.Bits.{
  test_bit, test_bit-le, test_bit-bit_or, test_bit-bit_and, bit_and-digit, bit_and-one,
}
use rt_async.Task.State.{spawn, despawn, run_enqueue, run_dequeue}

-- 1 if the flag is up, else 0
abbrev pub spawned : ℕ → ℕ
spawned bits = test_bit bits 0

abbrev pub run_queued : ℕ → ℕ
run_queued bits = test_bit bits 1

bit_and_two : (bits : ℕ) → bit_and bits 2 ≡ test_bit bits 1 * 2
unfolding test_bit
bit_and_two bits = omega (arith, bit_and-digit bits 2, bit_and-one (bits / 2))

bit_and_one : (bits : ℕ) → bit_and bits 1 ≡ test_bit bits 0
unfolding test_bit
bit_and_one bits = bit_and-one bits

-- `spawn` raises the spawned flag alone, and returns whether it was down.
pub spawn_lem :
    (bits : ℕ)
    → (spawned (spawn bits).0 ≡ 1)
      × (run_queued (spawn bits).0 ≡ run_queued bits)
      × ((spawn bits).1 ≡ (spawned bits == 0))
unfolding spawn test_bit
spawn_lem bits = (
  omega (arith, test_bit-bit_or bits 1 0, test_bit-le bits 0),
  omega (arith, test_bit-bit_or bits 1 1, test_bit-le bits 1),
  ap (λ x. x == 0) (bit_and_one bits),
)

-- `despawn` lowers the spawned flag alone.
pub despawn_lem :
    (bits : ℕ) → (spawned (despawn bits) ≡ 0) × (run_queued (despawn bits) ≡ run_queued bits)
unfolding despawn test_bit
despawn_lem bits = (
  omega (arith, test_bit-bit_and bits 254 0),
  omega (arith, test_bit-bit_and bits 254 1, test_bit-le bits 1),
)

-- `run_enqueue` raises the queued flag alone, and runs its closure exactly if it was down.
pub run_enqueue_lem :
    (bits : ℕ)
    → (run_queued (run_enqueue bits).0 ≡ 1)
      × (spawned (run_enqueue bits).0 ≡ spawned bits)
      × ((run_enqueue bits).1 ≡ (run_queued bits == 0))
unfolding run_enqueue test_bit
run_enqueue_lem bits = (
  omega (arith, test_bit-bit_or bits 2 1, test_bit-le bits 1),
  omega (arith, test_bit-bit_or bits 2 0, test_bit-le bits 0),
  ground (arith, bit_and_two bits),
)

-- `run_dequeue` lowers the queued flag alone.
pub run_dequeue_lem :
    (bits : ℕ) → (run_queued (run_dequeue bits) ≡ 0) × (spawned (run_dequeue bits) ≡ spawned bits)
unfolding run_dequeue test_bit
run_dequeue_lem bits = (
  omega (arith, test_bit-bit_and bits 253 1),
  omega (arith, test_bit-bit_and bits 253 0, test_bit-le bits 0),
)

-- The four transitions on the flag byte: each changes the one flag that it names and keeps the other;
-- `spawn` succeeds, and `run_enqueue` runs its closure, exactly if the flag was down.
pub flags_lem :
    (bits : ℕ)
    → ((spawned (spawn bits).0 ≡ 1)
        × (run_queued (spawn bits).0 ≡ run_queued bits)
        × ((spawn bits).1 ≡ (spawned bits == 0)))
      × ((spawned (despawn bits) ≡ 0) × (run_queued (despawn bits) ≡ run_queued bits))
      × ((run_queued (run_enqueue bits).0 ≡ 1)
          × (spawned (run_enqueue bits).0 ≡ spawned bits)
          × ((run_enqueue bits).1 ≡ (run_queued bits == 0)))
      × ((run_queued (run_dequeue bits) ≡ 0) × (spawned (run_dequeue bits) ≡ spawned bits))
flags_lem bits = (spawn_lem bits, despawn_lem bits, run_enqueue_lem bits, run_dequeue_lem bits)
