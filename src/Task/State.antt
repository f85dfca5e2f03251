-- ===== src/Task/State.antt =====
-- modules/executor/src/task/state.rs: the flags of a task in one atomic byte. `fetch_or` and
-- `fetch_and` return the byte before; each call returns the byte after.
pub mod Flags
use rt_async.Base.{ℕ, Bool, ◌==◌, bit_and, bit_or}
use rt_async.Base.Bits.{bit_not}

abbrev pub state_spawned : ℕ
state_spawned = 1

abbrev pub state_run_queued : ℕ
state_run_queued = 2

-- `true` if the task was not spawned before
unfoldable pub spawn : ℕ → ℕ × Bool
spawn bits = (bit_or bits state_spawned, bit_and bits state_spawned == 0)

unfoldable pub despawn : ℕ → ℕ
despawn bits = bit_and bits (bit_not 8 state_spawned)

-- `true` if the caller's closure runs, which links the task into a queue
unfoldable pub run_enqueue : ℕ → ℕ × Bool
run_enqueue bits = (bit_or bits state_run_queued, bit_and bits state_run_queued == 0)

unfoldable pub run_dequeue : ℕ → ℕ
run_dequeue bits = bit_and bits (bit_not 8 state_run_queued)
