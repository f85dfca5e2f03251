-- ===== src/Boot/Slots.antt =====
-- The slots of driver.rs after a boot with the default drivers.
use rt_async.Base.{
  ◌≢◌, ℕ, ◌+◌, ◌≤◌, ◌<◌, ◌≡◌, Bool, true, false, Option, none, some, List, [], ◌∷◌, arith, refl,
  ◌∙◌, ap, All, if◌then◌else◌, length,
}
use rt_async.Base.Outcome.{done}
use rt_async.Device.{Bus}
use rt_async.Driver.{Node, Board, get_slot, set_slot, iter, matches}
use rt_async.Driver.Boot.{HasConsole, boot-HasConsole}
use rt_async.Clint.{clint_timer}
use rt_async.Msip.{clint_msip}
use rt_async.Finisher.{sifive_test}
use rt_async.Plic.{plic}
use rt_async.Platform.{ns16550a}
use rt_async.Boot.{
  Devices, Tree, str_ns16550a, str_clint0, str_clint0_msip, str_test1, str_plic0, default_infos,
  probe_device, boot_default,
}
use rt_async.Boot.Effects.{View, view, effect_if, effects, tree_effects}
use rt_async.Boot.Loop.{HasRegs, boot-view}

-- The node has the string in its `compatible` property.
abbrev pub is_for : ℕ → Node → Bool
is_for str node = matches (str ∷ []) node.compatibles

-- The slot of a driver with this name and string, after the nodes of a tree
unfoldable pub filled : ℕ → ℕ → List Node → Option ℕ → Option ℕ
filled name str [] before = before
filled name str (node ∷ nodes) before =
    if is_for str node then some name else filled name str nodes before

-- The number of nodes with this string
unfoldable pub count : ℕ → List Node → ℕ
count str [] = 0
count str (node ∷ nodes) = (if is_for str node then 1 else 0) + count str nodes

abbrev at_node : Bool → ℕ → Option ℕ → Option ℕ
at_node matched name before = if matched then some name else before

effects_lem :
    (node : Node) (v : View)
    → effects default_infos node v ≡ record {
      timer = at_node (is_for str_clint0 node) clint_timer v.timer;
      ipi = at_node (is_for str_clint0_msip node) clint_msip v.ipi;
      reset = at_node (is_for str_test1 node) sifive_test v.reset;
      intc = at_node (is_for str_plic0 node) plic v.intc;
      serials = (if is_for str_ns16550a node then 1 else 0) + v.serials;
    }
unfolding effects
effects_lem node v =
    go (is_for str_ns16550a node) (is_for str_clint0 node) (is_for str_clint0_msip node)
      (is_for str_test1 node) (is_for str_plic0 node)
  where
    go :
        (u t m f p : Bool)
        → effect_if p plic (
            effect_if f sifive_test
              (effect_if m clint_msip (effect_if t clint_timer (effect_if u ns16550a v))))
          ≡ record {
            timer = at_node t clint_timer v.timer;
            ipi = at_node m clint_msip v.ipi;
            reset = at_node f sifive_test v.reset;
            intc = at_node p plic v.intc;
            serials = (if u then 1 else 0) + v.serials;
          }
    go u t m f p = ground arith

filled-some : (name str : ℕ) (nodes : List Node) → filled name str nodes (some name) ≡ some name
unfolding filled
filled-some name str [] = refl
filled-some name str (node ∷ nodes) = ground (arith, filled-some name str nodes)

filled-next :
    (name str : ℕ) (nodes : List Node) (matched : Bool) (before : Option ℕ)
    → filled name str nodes (at_node matched name before)
      ≡ at_node matched name (filled name str nodes before)
filled-next name str nodes true before = filled-some name str nodes
filled-next name str nodes false before = refl

-- The fold over the drivers and the nodes, slot by slot
tree_effects_lem :
    (nodes : List Node) (v : View)
    → tree_effects default_infos nodes v ≡ record {
      timer = filled clint_timer str_clint0 nodes v.timer;
      ipi = filled clint_msip str_clint0_msip nodes v.ipi;
      reset = filled sifive_test str_test1 nodes v.reset;
      intc = filled plic str_plic0 nodes v.intc;
      serials = count str_ns16550a nodes + v.serials;
    }
unfolding tree_effects filled count
tree_effects_lem [] v = ground arith
tree_effects_lem (node ∷ nodes) v =
    let v' = effects default_infos node v in
    tree_effects_lem nodes v'
    ∙ (let seen = effects_lem node v in
        let timer =
          ap (λ w. filled clint_timer str_clint0 nodes w.timer) seen
          ∙ filled-next clint_timer str_clint0 nodes _ v.timer in
        let ipi =
          ap (λ w. filled clint_msip str_clint0_msip nodes w.ipi) seen
          ∙ filled-next clint_msip str_clint0_msip nodes _ v.ipi in
        let reset =
          ap (λ w. filled sifive_test str_test1 nodes w.reset) seen
          ∙ filled-next sifive_test str_test1 nodes _ v.reset in
        let intc =
          ap (λ w. filled plic str_plic0 nodes w.intc) seen
          ∙ filled-next plic str_plic0 nodes _ v.intc in
        let serials : count str_ns16550a nodes + v'.serials
            ≡ count str_ns16550a (node ∷ nodes) + v.serials =
          ap (λ w. count str_ns16550a nodes + w.serials) seen ∙ omega arith in
        (λ i. record {
          timer = timer i;
          ipi = ipi i;
          reset = reset i;
          intc = intc i;
          serials = serials i;
        }))

HasConsole-some :
    {S : Type 0} (b : Board (Devices S))
    → HasConsole b
    → 0 < length (iter b.serials)
    → get_slot b.console ≢ none
HasConsole-some b console some_serial = split (iter b.serials) refl
  where
    split : (devices : List ℕ) → iter b.serials ≡ devices → get_slot b.console ≢ none
    split [] e = absurd (omega (arith, ap length e, some_serial))
    split (dev ∷ others) e = λ off. absurd (ground (arith, console, e, off))

module _ {S : Type 0} (bus : Bus S) (tree : Tree) (nodes : List Node) (b : Board (Devices S)) where
  -- A boot with the default drivers over any tree ends, if each node that a driver matches has a
  -- `reg` property whose first address is not 0, and the registry has room for the serial devices:
  -- the slots of the timer, the software interrupt, the reset and the interrupt controller then
  -- hold the driver exactly if some node is for it, or what they held before; every serial node is
  -- registered, and there is a console if any device is.
  pub boot_default_lem :
      All (HasRegs bus tree default_infos) nodes
      → count str_ns16550a nodes + length (iter b.serials) ≤ b.serials.capacity
      → b.serials.next < b.serials.capacity
      → (b' : Board (Devices S)) × (boot_default bus tree nodes b ≡ done b')
        × (get_slot b'.devices.clint.timer
            ≡ filled clint_timer str_clint0 nodes (get_slot b.devices.clint.timer))
        × (get_slot b'.devices.msip.ipi
            ≡ filled clint_msip str_clint0_msip nodes (get_slot b.devices.msip.ipi))
        × (get_slot b'.devices.finisher.reset
            ≡ filled sifive_test str_test1 nodes (get_slot b.devices.finisher.reset))
        × (get_slot b'.devices.plic.intc
            ≡ filled plic str_plic0 nodes (get_slot b.devices.plic.intc))
        × (length (iter b'.serials) ≡ count str_ns16550a nodes + length (iter b.serials))
        × (0 < length (iter b'.serials) → get_slot b'.console ≢ none)
  unfolding boot_default
  boot_default_lem regs room cursor =
      let folded = tree_effects_lem nodes (view b) in
      let (b', e, seen, same, next) =
        boot-view bus tree default_infos nodes b regs
          (omega (arith, ap (λ v. v.serials) folded, room)) cursor in
      let all = seen ∙ folded in
      (
        b',
        e,
        ap (λ v. v.timer) all,
        ap (λ v. v.ipi) all,
        ap (λ v. v.reset) all,
        ap (λ v. v.intc) all,
        ap (λ v. v.serials) all,
        λ some_serial.
            HasConsole-some b'
              (boot-HasConsole (probe_device bus tree) (set_slot default_infos) nodes b e).0
              some_serial,
      )
