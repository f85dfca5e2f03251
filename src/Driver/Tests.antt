-- ===== src/Driver/Tests.antt =====
-- A boot of driver.rs over a tree of two nodes, a serial port and a timer, with a clock controller.
use rt_async.Base.{
  ℕ, ◌≡◌, ◌⊎◌, ◌<◌, none, some, List, [], ◌∷◌, ◌++◌, refl, arith, ◌==◌, if◌then◌else◌,
}
use rt_async.Base.Outcome.{Outcome, done, panic, ◌>>=◌}
use rt_async.External.Model.{stack}
use rt_async.Driver.{
  Node, DriverInfo, enables, probes, Board, empty_slot, set_slot, get_slot, empty_registry,
  register_from, register, get, iter, iter_below, bus_stack_reset, bus_stack_pop_to, push_i2c,
  current_i2c, try_derive_console, contains, matches, apply_pinctrl, enable_clock, probe_all, visit,
  visit_all, boot,
}
use rt_async.Driver.Registry.{Registered, Exhausted, register_lem}
use rt_async.Driver.Boot.{asked, visit-log}

-- The drivers of these tests have no state of their own.
abbrev Nothing : Type 0
Nothing = Unit {0}

-- Driver 7 registers the serial device 70; other drivers register nothing.
abbrev probe : ℕ → Node → Board Nothing → Outcome (Board Nothing)
probe name node b =
    if name == 7
    then (do (serials, idx) ← register b.serials 70; done (record b { serials = serials }))
    else done b

abbrev bare : Board Nothing
bare = record {
  console = empty_slot;
  pinctrl = empty_slot;
  clock = set_slot 5;
  serials = empty_registry 4;
  i2c_buses = empty_registry 4;
  spi_buses = empty_registry 4;
  i2c = [];
  spi = [];
  log = [];
  devices = tt;
}

abbrev serial_node : Node
serial_node = record { name = 1; level = 2; compatibles = 100 ∷ (101 ∷ []) }

abbrev timer_node : Node
timer_node = record { name = 2; level = 1; compatibles = 200 ∷ [] }

abbrev drivers : List DriverInfo
drivers =
    record { name = 7; compatible = 101 ∷ [] } ∷ (record { name = 8; compatible = 200 ∷ [] } ∷ [])

abbrev nodes : List Node
nodes = serial_node ∷ (timer_node ∷ [])

abbrev or_else : Board Nothing → Outcome (Board Nothing) → Board Nothing
or_else b (done b') = b'
or_else b panic = b

abbrev booted : Board Nothing
booted = or_else bare (boot probe (set_slot drivers) nodes bare)

boot_run : boot probe (set_slot drivers) nodes bare ≡ done booted
unfolding boot set_slot get_slot empty_slot empty_registry bus_stack_reset visit_all visit probe_all
    matches contains bus_stack_pop_to apply_pinctrl enable_clock register register_from
    try_derive_console iter iter_below
boot_run = refl

log_run : booted.log ≡ probes 8 2 ∷ (enables 5 2 ∷ (probes 7 1 ∷ (enables 5 1 ∷ [])))
unfolding boot set_slot get_slot empty_slot empty_registry bus_stack_reset visit_all visit probe_all
    matches contains bus_stack_pop_to apply_pinctrl enable_clock register register_from
    try_derive_console iter iter_below
log_run = refl

console_run : get_slot booted.console ≡ some 70
unfolding boot set_slot get_slot empty_slot empty_registry bus_stack_reset visit_all visit probe_all
    matches contains bus_stack_pop_to apply_pinctrl enable_clock register register_from
    try_derive_console iter iter_below
console_run = refl

bus_run :
    (current_i2c stack (push_i2c stack bare 3) ≡ none)
    × ((bus_stack_pop_to (push_i2c stack bare 3) 1).i2c ≡ [])
unfolding push_i2c current_i2c get get_slot empty_slot empty_registry bus_stack_pop_to set_slot
bus_run = (refl, refl)

abbrev quiet_probe : ℕ → Node → Board Nothing → Outcome (Board Nothing)
quiet_probe name node b = done b

quiet_keeps :
    (name : ℕ) (node : Node) (b b' : Board Nothing)
    → quiet_probe name node b ≡ done b'
    → b'.log ≡ b.log
quiet_keeps name node b b' e = ground (arith, e)

abbrev visited : Board Nothing
visited = or_else bare (visit quiet_probe drivers 2 timer_node bare)

visit_run : visit quiet_probe drivers 2 timer_node bare ≡ done visited
unfolding set_slot get_slot empty_slot empty_registry visit probe_all matches contains
    bus_stack_pop_to apply_pinctrl enable_clock try_derive_console iter iter_below
visit_run = refl

visit-log_example :
    visited.log ≡ asked (get_slot bare.pinctrl) (get_slot bare.clock) drivers timer_node ++ bare.log
visit-log_example = visit-log quiet_probe quiet_keeps drivers 2 timer_node bare visited visit_run

one_slot : 0 < bare.serials.capacity
unfolding empty_registry
one_slot = omega arith

first_slot : bare.serials.next < bare.serials.capacity
unfolding empty_registry
first_slot = omega arith

register_lem_example :
    Registered bare.serials 70 one_slot first_slot (register bare.serials 70)
    ⊎ Exhausted bare.serials 70 one_slot first_slot (register bare.serials 70)
register_lem_example = register_lem bare.serials 70 one_slot first_slot
