-- ===== src/Boot/Tests.antt =====
-- A boot over a tree like the one of the QEMU board: a serial port, the timer, the software interrupt,
-- the reset and the interrupt controller, and one node that no driver is for.
use rt_async.Base.{
  All, ◌≤◌, false, ◌*◌, ℕ, ◌≡◌, ◌≢◌, ◌+◌, ◌<◌, none, some, List, [], ◌∷◌, refl, arith, length,
}
use rt_async.Base.Outcome.{Outcome, done, panic}
use rt_async.Device.{Bus, first_reg}
use rt_async.Driver.{
  Node, Board, empty_slot, set_slot, get_slot, empty_registry, iter, iter_below, matches, contains,
  boot, visit_all, visit, probe_all, bus_stack_reset, bus_stack_pop_to, apply_pinctrl, enable_clock,
  try_derive_console, register, register_from,
}
use rt_async.Serial as Serial
use rt_async.Uart as Uart
use rt_async.Clint as Clint
use rt_async.Clint.{clint_timer}
use rt_async.Msip as Msip
use rt_async.Msip.{clint_msip}
use rt_async.Finisher as Finisher
use rt_async.Finisher.{sifive_test}
use rt_async.Plic as Plic
use rt_async.Plic.{plic}
use rt_async.Boot.{
  Devices, Tree, str_ns16550a, str_clint0, str_clint0_msip, str_test1, str_plic0, default_infos,
  probe_device, probe_uart, probe_timer, probe_msip, probe_finisher, probe_plic, boot_default,
}
use rt_async.Boot.Effects.{HasReg}
use rt_async.Boot.Loop.{HasRegs}
use rt_async.Boot.Slots.{filled, count, boot_default_lem}

-- The registers are the list of what was written, the last first.
abbrev bus : Bus (List ℕ)
bus = record { read = λ w s a. (0, s); write = λ w s a v. v ∷ s }

-- The node with name `n` has its registers at 4096 times `n`.
abbrev tree : Tree
tree = record {
  reg = λ node. some (4096 * node.name ∷ []);
  boot_cpuid = 1;
  timebase = some 10000000;
  mhartid = 1;
}

abbrev node_of : ℕ → List ℕ → Node
node_of name compatibles = record { name = name; level = 2; compatibles = compatibles }

abbrev nodes : List Node
nodes =
    node_of 1 (str_ns16550a ∷ [])
    ∷ node_of 2 (999 ∷ [])
    ∷ node_of 3 (998 ∷ (str_clint0 ∷ []))
    ∷ node_of 4 (str_clint0_msip ∷ [])
    ∷ node_of 5 (str_test1 ∷ [])
    ∷ node_of 6 (str_plic0 ∷ [])
    ∷ []

abbrev devices : Devices (List ℕ)
devices = record {
  uart = record { base = 0; hardware = [] };
  rx = Serial.new;
  clint = record { base = 0; off_mtimecmp = 0; freq = 0; timer = empty_slot; hardware = [] };
  msip = record {
    base = 0;
    off_msip = 0;
    is_ready = 0;
    ipi = empty_slot;
    pend_marker = false;
    hardware = [];
  };
  finisher = record { base = 0; reset = empty_slot; hardware = [] };
  plic = record { base = 0; context = 0; intc = empty_slot; hardware = [] };
}

abbrev bare : Board (Devices (List ℕ))
bare = record {
  console = empty_slot;
  pinctrl = empty_slot;
  clock = empty_slot;
  serials = empty_registry 4;
  i2c_buses = empty_registry 4;
  spi_buses = empty_registry 4;
  i2c = [];
  spi = [];
  log = [];
  devices = devices;
}

abbrev or_else : Outcome (Board (Devices (List ℕ))) → Board (Devices (List ℕ))
or_else (done b) = b
or_else panic = bare

abbrev booted : Board (Devices (List ℕ))
booted = or_else (boot_default bus tree nodes bare)

boot_run :
    (get_slot booted.console ≡ some 5)
    × (booted.devices.clint.base ≡ 12288)
    × (booted.devices.clint.off_mtimecmp ≡ 16392)
unfolding boot_default boot set_slot get_slot empty_slot empty_registry bus_stack_reset visit_all
    visit probe_all matches contains bus_stack_pop_to apply_pinctrl enable_clock register
    register_from try_derive_console iter iter_below probe_device probe_uart probe_timer probe_msip
    probe_finisher probe_plic Uart.probe Uart.regs Clint.probe Msip.probe Finisher.probe Plic.probe
    first_reg
boot_run = (refl, refl, refl)

has_reg : (node : Node) → 0 < node.name → HasReg bus tree node
unfolding first_reg
has_reg node named = (4096 * node.name, refl, λ e. absurd (omega (arith, e, named)))

has_regs :
    (name : ℕ) (compatibles : List ℕ)
    → 0 < name
    → HasRegs bus tree default_infos (node_of name compatibles)
has_regs name compatibles named =
    let reg = has_reg (node_of name compatibles) named in
    (λ on. reg, (λ on. reg, (λ on. reg, (λ on. reg, (λ on. reg, tt)))))

nodes_regs : All (HasRegs bus tree default_infos) nodes
nodes_regs = (
  has_regs 1 _ (omega arith),
  (
    has_regs 2 _ (omega arith),
    (
      has_regs 3 _ (omega arith),
      (has_regs 4 _ (omega arith), (has_regs 5 _ (omega arith), (has_regs 6 _ (omega arith), tt))),
    ),
  ),
)

nodes_room : count str_ns16550a nodes + length (iter bare.serials) ≤ bare.serials.capacity
unfolding count matches contains iter iter_below empty_registry get_slot empty_slot
nodes_room = omega arith

bare_cursor : bare.serials.next < bare.serials.capacity
unfolding empty_registry
bare_cursor = omega arith

boot_default_lem_example :
    (b' : Board (Devices (List ℕ))) × (boot_default bus tree nodes bare ≡ done b')
    × (get_slot b'.devices.clint.timer
        ≡ filled clint_timer str_clint0 nodes (get_slot bare.devices.clint.timer))
    × (get_slot b'.devices.msip.ipi
        ≡ filled clint_msip str_clint0_msip nodes (get_slot bare.devices.msip.ipi))
    × (get_slot b'.devices.finisher.reset
        ≡ filled sifive_test str_test1 nodes (get_slot bare.devices.finisher.reset))
    × (get_slot b'.devices.plic.intc
        ≡ filled plic str_plic0 nodes (get_slot bare.devices.plic.intc))
    × (length (iter b'.serials) ≡ count str_ns16550a nodes + length (iter bare.serials))
    × (0 < length (iter b'.serials) → get_slot b'.console ≢ none)
boot_default_lem_example = boot_default_lem bus tree nodes bare nodes_regs nodes_room bare_cursor
