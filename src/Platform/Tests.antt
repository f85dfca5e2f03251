-- ===== src/Platform/Tests.antt =====
-- Runs of lib.rs, dtb.rs, logger.rs and the boards.
use rt_async.Base.{ℕ, ◌≡◌, ◌++◌, false, [], ◌∷◌, none, some, refl}
use rt_async.Base.Outcome.{done, panic}
use rt_async.Device.{Bus}
use rt_async.Driver.{get_slot, set_slot, empty_slot}
use rt_async.Platform.{
  Machine, start, start_body, execute_all, init_dtb, dt, empty_slots, console, intctl, try_console,
  std_init, log, log_line,
}
use rt_async.Platform.Start.{take, IsSafePoint, all_enabled, start_lem}

abbrev nothing : Bus ℕ
nothing = record { read = λ w s a. (0, s); write = λ w s a v. v }

abbrev asleep : Machine ℕ
asleep = record {
  hart = record { mie = false; mtie = false; meie = false; msie = false };
  clint = record {
    base = 0x0200_0000;
    off_mtimecmp = 0x4000;
    freq = 10000000;
    timer = set_slot 2;
    hardware = 0;
  };
}

asleep-timer : get_slot asleep.clint.timer ≡ some 2
unfolding get_slot set_slot
asleep-timer = refl

start_lem_example :
    ((q : Machine ℕ) × (start nothing (λ m. m) asleep ≡ done q) × (q.hart ≡ all_enabled))
    × ((n : ℕ) → IsSafePoint (execute_all nothing (λ m. m) (take n start_body) asleep))
start_lem_example = start_lem nothing (λ m. m) asleep 2 refl refl asleep-timer

dtb_early : dt (record { inited = 0; fdt = none }) ≡ panic
unfolding dt
dtb_early = refl

dtb_twice : init_dtb (record { inited = 1; fdt = some 9 }) (some 8) ≡ panic
unfolding init_dtb
dtb_twice = refl

std_console : console (std_init empty_slots) ≡ done 11
unfolding console std_init get_slot set_slot
std_console = refl

-- The board of the host registers no interrupt controller.
std_intctl : intctl (std_init empty_slots) ≡ panic
unfolding intctl std_init empty_slots get_slot empty_slot
std_intctl = refl

log_run :
    log (std_init empty_slots) (λ con out bytes. out ++ bytes) [] (73 ∷ []) (104 ∷ 105 ∷ [])
    ≡ 91 ∷ 73 ∷ 93 ∷ 32 ∷ 104 ∷ 105 ∷ 10 ∷ []
unfolding log log_line try_console std_init get_slot set_slot
log_run = refl

log_early : log empty_slots (λ con out bytes. out ++ bytes) [] (73 ∷ []) (104 ∷ []) ≡ []
unfolding log try_console empty_slots get_slot empty_slot
log_early = refl
