-- ===== src/Driver.antt =====
-- modules/platform/src/driver.rs and bus.rs: the slots and registries of devices, the stacks of active
-- buses, and the boot loop over the device tree. A device, a driver and a `compatible` string are
-- numbers, their names. The device tree is the list of its nodes, the parent before its children; a
-- driver's `probe` is an argument, and `Boot` gives those of modules/platform/src/drivers.
pub mod Registry
pub mod Room
pub mod Boot
mod Tests
use rt_async.Base.{
  ℕ, zero, suc, ◌+◌, ◌%◌, Bool, true, false, Option, none, some, List, [], ◌∷◌, ◌++◌, ◌==◌,
  if◌then◌else◌, ltb, leb, update,
}
use rt_async.Base.Outcome.{Outcome, done, panic, ◌>>=◌, unwrap}
use rt_async.External.{VecStack}

-- `Slot<T>`; `state` is 0 for uninitialised and 1 for ready.
pub record Slot {ℓ} (T : Type ℓ) : Type ℓ where
  pub state : ℕ
  pub val : Option T

module _ {ℓ} {T : Type ℓ} where
  unfoldable pub empty_slot : Slot T
  empty_slot = record { state = 0; val = none }

  unfoldable pub set_slot : T → Slot T
  set_slot dev = record { state = 1; val = some dev }

  unfoldable pub get_slot : Slot T → Option T
  get_slot s = if s.state == 1 then s.val else none

-- `DeviceRegistry<T, N>`
pub record DeviceRegistry {ℓ} (T : Type ℓ) : Type ℓ where
  pub capacity : ℕ
  pub slots : ℕ → Slot T
  pub next : ℕ

module _ {ℓ} {T : Type ℓ} where
  unfoldable pub empty_registry : ℕ → DeviceRegistry T
  empty_registry capacity = record { capacity = capacity; slots = λ i. empty_slot; next = 0 }

  -- The loop of `register` from the `i`-th probe on.
  unfoldable pub register_from : DeviceRegistry T → T → ℕ → ℕ → Outcome (DeviceRegistry T × ℕ)
  register_from r dev zero i = panic
  register_from r dev (suc fuel) i =
      let rest = register_from r dev fuel (i + 1) in
      let idx = (r.next + i) % r.capacity in
      elim (get_slot (r.slots idx)) [
        | none ↦ done (
          record r { slots = update r.slots idx (set_slot dev); next = (idx + 1) % r.capacity },
          idx,
        )
        | some taken ↦ rest
      ]

  unfoldable pub register : DeviceRegistry T → T → Outcome (DeviceRegistry T × ℕ)
  register r dev = register_from r dev r.capacity 0

  -- `checked_rem` fails on a registry without slots only.
  unfoldable pub get : DeviceRegistry T → ℕ → Option T
  get r idx = if r.capacity == 0 then none else get_slot (r.slots (idx % r.capacity))

  -- The devices of the first `n` slots.
  unfoldable pub iter_below : DeviceRegistry T → ℕ → List T
  iter_below r zero = []
  iter_below r (suc n) =
      iter_below r n ++ (elim (get_slot (r.slots n)) [ none ↦ [] | some dev ↦ dev ∷ [] ])

  unfoldable pub iter : DeviceRegistry T → List T
  iter r = iter_below r r.capacity

-- A node of the device tree
pub record Node : Type 0 where
  pub name : ℕ
  pub level : ℕ
  pub compatibles : List ℕ

pub record DriverInfo : Type 0 where
  pub name : ℕ
  pub compatible : List ℕ

-- What the boot loop asks of the devices, with the name of the node
pub data Event : Type 0 where
  applies enables probes : ℕ → ℕ → Event

unfoldable pub contains : List ℕ → ℕ → Bool
contains [] x = false
contains (y ∷ ys) x = if y == x then true else contains ys x

-- Some string of the node is one of the driver.
unfoldable pub matches : List ℕ → List ℕ → Bool
matches compatible [] = false
matches compatible (nc ∷ ncs) = if contains compatible nc then true else matches compatible ncs

-- The slots that the boot loop reads, the registries, the bus stacks (each with its last index first),
-- what has been asked of the devices, the last first, and the state of the drivers.
pub record Board (D : Type 0) : Type 0 where
  pub console : Slot ℕ
  pub pinctrl : Slot ℕ
  pub clock : Slot ℕ
  pub serials : DeviceRegistry ℕ
  pub i2c_buses : DeviceRegistry ℕ
  pub spi_buses : DeviceRegistry ℕ
  pub i2c : List ℕ
  pub spi : List ℕ
  pub log : List Event
  pub devices : D

module _ {D : Type 0} where
  unfoldable pub bus_stack_reset : Board D → Board D
  bus_stack_reset b = record b { i2c = []; spi = [] }

  unfoldable pub bus_stack_pop_to : Board D → ℕ → Board D
  bus_stack_pop_to b level = if leb level 1 then record b { i2c = []; spi = [] } else b

  module _ (vec : VecStack ℕ) where
    -- A full stack ignores the index.
    unfoldable pub push_i2c : Board D → ℕ → Board D
    push_i2c b idx = elim (vec.push 8 b.i2c idx) [
      | none ↦ b
      | some stack ↦ record b { i2c = stack }
    ]

    unfoldable pub push_spi : Board D → ℕ → Board D
    push_spi b idx = elim (vec.push 8 b.spi idx) [
      | none ↦ b
      | some stack ↦ record b { spi = stack }
    ]

    unfoldable pub current_i2c : Board D → Option ℕ
    current_i2c b = elim (vec.last b.i2c) [ none ↦ none | some idx ↦ get b.i2c_buses idx ]

    unfoldable pub current_spi : Board D → Option ℕ
    current_spi b = elim (vec.last b.spi) [ none ↦ none | some idx ↦ get b.spi_buses idx ]

  unfoldable pub try_derive_console : Board D → Board D
  try_derive_console b = elim (iter b.serials) [
    | [] ↦ b
    | dev ∷ others ↦ record b { console = set_slot dev }
  ]

  unfoldable pub apply_pinctrl : Board D → Node → Board D
  apply_pinctrl b node = elim (get_slot b.pinctrl) [
    | none ↦ b
    | some pc ↦ record b { log = applies pc node.name ∷ b.log }
  ]

  unfoldable pub enable_clock : Board D → Node → Board D
  enable_clock b node = elim (get_slot b.clock) [
    | none ↦ b
    | some cc ↦ record b { log = enables cc node.name ∷ b.log }
  ]

  module _ (probe : ℕ → Node → Board D → Outcome (Board D)) where
    unfoldable pub probe_all : List DriverInfo → Node → Board D → Outcome (Board D)
    probe_all [] node b = done b
    probe_all (drv ∷ drivers) node b =
        if matches drv.compatible node.compatibles
        then (do
          b' ← probe drv.name node (record b { log = probes drv.name node.name ∷ b.log })
          probe_all drivers node b')
        else probe_all drivers node b

    -- One turn of the loop of `boot`
    unfoldable pub visit : List DriverInfo → ℕ → Node → Board D → Outcome (Board D)
    visit drivers prev_level node b = do
      b' ← probe_all drivers node (
          enable_clock
            (apply_pinctrl (if ltb node.level prev_level then bus_stack_pop_to b node.level else b)
              node)
            node)
      done (elim (get_slot b'.console) [ none ↦ try_derive_console b' | some dev ↦ b' ])

    unfoldable pub visit_all : List DriverInfo → ℕ → List Node → Board D → Outcome (Board D)
    visit_all drivers prev_level [] b = done b
    visit_all drivers prev_level (node ∷ nodes) b = do
      b' ← visit drivers prev_level node b
      visit_all drivers node.level nodes b'

    -- `DRIVERS.get().expect(..)` panics on an empty slot.
    unfoldable pub boot : Slot (List DriverInfo) → List Node → Board D → Outcome (Board D)
    boot slot nodes b = do
      drivers ← unwrap (get_slot slot)
      b' ← visit_all drivers 1 nodes (bus_stack_reset b)
      done (try_derive_console b')
