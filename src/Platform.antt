-- ===== src/Platform.antt =====
-- modules/platform/src/lib.rs (`init` and `start`), dtb.rs and logger.rs, the interrupt enables of
-- platform/archs/riscv64-rt/src/lib.rs, the slots of driver.rs with their accessors, and the boards of
-- platform/chips. A device is a number, its name.
pub mod Start
mod Tests
use rt_async.Base.{
  ℕ, ◌-◌, ◌^◌, ◌==◌, if◌then◌else◌, Bool, true, false, List, [], ◌∷◌, ◌++◌, Option, none, some,
}
use rt_async.Base.Outcome.{Outcome, done, panic, ◌>>=◌, unwrap}
use rt_async.Device.{Bus}
use rt_async.Driver.{Slot, get_slot, set_slot, empty_slot}
use rt_async.Clint as Clint
use rt_async.Clint.{Clint, clint_timer}
use rt_async.Plic.{plic}
use rt_async.Msip.{clint_msip}
use rt_async.Finisher.{sifive_test}

-- The enable bits of a hart: `mstatus.MIE`, and `MTIE`, `MEIE` and `MSIE` of `mie`
pub record Hart : Type 0 where
  pub mie : Bool
  pub mtie : Bool
  pub meie : Bool
  pub msie : Bool

unfoldable pub enable_interrupts : Hart → Hart
enable_interrupts h = record h { mie = true }

unfoldable pub disable_interrupts : Hart → Hart
disable_interrupts h = record h { mie = false }

unfoldable pub enable_msi : Hart → Hart
enable_msi h = record h { msie = true }

unfoldable pub enable_mei : Hart → Hart
enable_mei h = record h { meie = true }

unfoldable pub enable_mtimer : Hart → Hart
enable_mtimer h = record h { mtie = true }

pub record Machine (S : Type 0) : Type 0 where
  pub hart : Hart
  pub clint : Clint S

-- The statements of `start`
pub data Statement : Type 0 where
  late_init far_deadline mtimer mei msi interrupts : Statement

abbrev pub start_body : List Statement
start_body = late_init ∷ far_deadline ∷ mtimer ∷ mei ∷ msi ∷ interrupts ∷ []

module _ {S : Type 0} (bus : Bus S) (board_late_init : Machine S → Machine S) where
  unfoldable pub execute : Statement → Machine S → Outcome (Machine S)
  execute late_init m = done (board_late_init m)
  execute far_deadline m = do
    device ← unwrap (get_slot m.clint.timer)
    done (record m { clint = Clint.set_deadline bus m.clint (2 ^ 64 - 1) })
  execute mtimer m = done (record m { hart = enable_mtimer m.hart })
  execute mei m = done (record m { hart = enable_mei m.hart })
  execute msi m = done (record m { hart = enable_msi m.hart })
  execute interrupts m = done (record m { hart = enable_interrupts m.hart })

  unfoldable pub execute_all : List Statement → Machine S → Outcome (Machine S)
  execute_all [] m = done m
  execute_all (s ∷ statements) m = do m' ← execute s m; execute_all statements m'

  unfoldable pub start : Machine S → Outcome (Machine S)
  start = execute_all start_body

-- `INITED` and `FDT` of dtb.rs; parsing is of the crate `fdt-parser`.
pub record Dtb : Type 0 where
  pub inited : ℕ
  pub fdt : Option ℕ

unfoldable pub init_dtb : Dtb → Option ℕ → Outcome Dtb
init_dtb d parsed =
    if d.inited == 0
    then (do fdt ← unwrap parsed; done (record { inited = 1; fdt = some fdt }))
    else panic

-- Reading an `FDT` that was not written is a panic here.
unfoldable pub dt : Dtb → Outcome ℕ
dt d = if d.inited == 0 then panic else unwrap d.fdt

-- The single slots of driver.rs
pub record Slots : Type 0 where
  pub console : Slot ℕ
  pub timer : Slot ℕ
  pub ipi : Slot ℕ
  pub reset : Slot ℕ
  pub intc : Slot ℕ
  pub drivers : Slot (List ℕ)
  pub pinctrl : Slot ℕ
  pub clock : Slot ℕ

unfoldable pub empty_slots : Slots
empty_slots = record {
  console = empty_slot;
  timer = empty_slot;
  ipi = empty_slot;
  reset = empty_slot;
  intc = empty_slot;
  drivers = empty_slot;
  pinctrl = empty_slot;
  clock = empty_slot;
}

unfoldable pub console : Slots → Outcome ℕ
console s = unwrap (get_slot s.console)

unfoldable pub try_console : Slots → Option ℕ
try_console s = get_slot s.console

unfoldable pub timer : Slots → Outcome ℕ
timer s = unwrap (get_slot s.timer)

unfoldable pub ipi : Slots → Outcome ℕ
ipi s = unwrap (get_slot s.ipi)

unfoldable pub reset : Slots → Outcome ℕ
reset s = unwrap (get_slot s.reset)

unfoldable pub intctl : Slots → Outcome ℕ
intctl s = unwrap (get_slot s.intc)

unfoldable pub try_pinctrl : Slots → Option ℕ
try_pinctrl s = get_slot s.pinctrl

unfoldable pub try_clock : Slots → Option ℕ
try_clock s = get_slot s.clock

-- The name of the serial driver `INSTANCE`
abbrev pub ns16550a : ℕ
ns16550a = 5

unfoldable pub default_drivers : List ℕ
default_drivers = ns16550a ∷ clint_timer ∷ clint_msip ∷ sifive_test ∷ plic ∷ []

-- `StdChip::init`, with the names of its four devices
unfoldable pub std_init : Slots → Slots
std_init s = record s {
  console = set_slot 11;
  timer = set_slot 12;
  reset = set_slot 13;
  ipi = set_slot 14;
}

-- `QemuVirt::init` up to the boot loop of `Driver`: the device tree and the list of the drivers
unfoldable pub virt_init : Dtb → Slots → Option ℕ → Outcome (Dtb × Slots)
virt_init d s parsed = do
  d' ← init_dtb d parsed
  done (d', record s { drivers = set_slot default_drivers })

-- `Logger::log`: the texts of the level and of the message, as bytes. Without a console the line is lost.
unfoldable pub log_line : List ℕ → List ℕ → List ℕ
log_line level args = (b'[' ∷ level) ++ (b']' ∷ b' ' ∷ args) ++ (10 ∷ [])

unfoldable pub log : Slots → (ℕ → List ℕ → List ℕ → List ℕ) → List ℕ → List ℕ → List ℕ → List ℕ
log s write out level args = elim (try_console s) [
  | none ↦ out
  | some con ↦ write con out (log_line level args)
]
