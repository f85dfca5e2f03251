-- ===== src/Boot.antt =====
-- The drivers of modules/platform/src/drivers as the boot loop of driver.rs probes them, on one state:
-- the `probe` of each, with the slot or the registry that it enters. What the crate `fdt-parser` reads
-- from the tree, and the number of the hart that runs, are arguments. Each device has its own
-- registers, and the log line of a probe is left out. The strings of the `compatible` properties are numbers, their names.
pub mod Effects
pub mod Loop
pub mod Slots
mod Tests
use rt_async.Base.{ℕ, ◌==◌, if◌then◌else◌, List, [], ◌∷◌, Option}
use rt_async.Base.Outcome.{Outcome, done, panic, ◌>>=◌}
use rt_async.Device.{Bus}
use rt_async.Driver.{Node, DriverInfo, Board, set_slot, register, boot}
use rt_async.Serial.{RxState}
use rt_async.Uart as Uart
use rt_async.Uart.{Uart}
use rt_async.Clint as Clint
use rt_async.Clint.{Clint, clint_timer}
use rt_async.Msip as Msip
use rt_async.Msip.{Msip, clint_msip}
use rt_async.Finisher as Finisher
use rt_async.Finisher.{Finisher, sifive_test}
use rt_async.Plic as Plic
use rt_async.Plic.{Plic, plic}
use rt_async.Platform.{ns16550a}

pub record Devices (S : Type 0) : Type 0 where
  pub uart : Uart S
  pub rx : RxState
  pub clint : Clint S
  pub msip : Msip S
  pub finisher : Finisher S
  pub plic : Plic S

-- What is read from the tree for each node, the `boot_cpuid_phys` of its header, the frequency in its
-- `/cpus`, and `mhartid`
pub record Tree : Type 0 where
  pub reg : Node → Option (List ℕ)
  pub boot_cpuid : ℕ
  pub timebase : Option ℕ
  pub mhartid : ℕ

-- "ns16550a", "riscv,clint0", "riscv,clint0-msip", "sifive,test1" and "riscv,plic0"
abbrev pub str_ns16550a : ℕ
str_ns16550a = 105

abbrev pub str_clint0 : ℕ
str_clint0 = 102

abbrev pub str_clint0_msip : ℕ
str_clint0_msip = 103

abbrev pub str_test1 : ℕ
str_test1 = 104

abbrev pub str_plic0 : ℕ
str_plic0 = 101

-- `DEFAULT_RISCV64`, with the answers of `compatible`
abbrev pub default_infos : List DriverInfo
default_infos =
    record { name = ns16550a; compatible = str_ns16550a ∷ [] }
    ∷ record { name = clint_timer; compatible = str_clint0 ∷ [] }
    ∷ record { name = clint_msip; compatible = str_clint0_msip ∷ [] }
    ∷ record { name = sifive_test; compatible = str_test1 ∷ [] }
    ∷ record { name = plic; compatible = str_plic0 ∷ [] }
    ∷ []

module _ {S : Type 0} (bus : Bus S) (tree : Tree) where
  unfoldable pub probe_uart : Node → Board (Devices S) → Outcome (Board (Devices S))
  probe_uart node b = do
    (uart, rx) ← Uart.probe bus b.devices.uart b.devices.rx (tree.reg node)
    (serials, idx) ← register b.serials ns16550a
    done (record b { serials = serials; devices = record b.devices { uart = uart; rx = rx } })

  unfoldable pub probe_timer : Node → Board (Devices S) → Outcome (Board (Devices S))
  probe_timer node b = do
    clint ← Clint.probe b.devices.clint (tree.reg node) tree.boot_cpuid tree.timebase
    done (record b { devices = record b.devices { clint = clint } })

  unfoldable pub probe_msip : Node → Board (Devices S) → Outcome (Board (Devices S))
  probe_msip node b = do
    msip ← Msip.probe b.devices.msip (tree.reg node) tree.boot_cpuid
    done (record b { devices = record b.devices { msip = msip } })

  unfoldable pub probe_finisher : Node → Board (Devices S) → Outcome (Board (Devices S))
  probe_finisher node b = do
    finisher ← Finisher.probe b.devices.finisher (tree.reg node)
    done (record b { devices = record b.devices { finisher = finisher } })

  unfoldable pub probe_plic : Node → Board (Devices S) → Outcome (Board (Devices S))
  probe_plic node b = do
    plic ← Plic.probe bus tree.mhartid b.devices.plic (tree.reg node)
    done (record b { devices = record b.devices { plic = plic } })

  -- `drv.probe(&node)`, by the name of the driver
  unfoldable pub probe_device : ℕ → Node → Board (Devices S) → Outcome (Board (Devices S))
  probe_device name node b =
      if name == ns16550a
      then probe_uart node b
      else (if name == clint_timer
          then probe_timer node b
          else (if name == clint_msip
              then probe_msip node b
              else (if name == sifive_test
                  then probe_finisher node b
                  else (if name == plic then probe_plic node b else done b))))

  -- The boot loop with the default drivers, as `QemuVirt::init` runs it
  unfoldable pub boot_default : List Node → Board (Devices S) → Outcome (Board (Devices S))
  boot_default = boot probe_device (set_slot default_infos)
