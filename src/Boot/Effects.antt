-- ===== src/Boot/Effects.antt =====
-- What a boot over the drivers leaves in the slots, as a fold over the nodes of the tree.
use rt_async.Base.{
  Bool, some, ℕ, suc, Bool, false, some, sym, subst, ◌≤◌, ◌<◌, ◌≡◌, ◌≢◌, ◌==◌, if◌then◌else◌, true,
  Option, List, [], ◌∷◌, arith, refl, ap, length, eq-cases, inl, inr,
}
use rt_async.Base.Outcome.{Outcome, done}
use rt_async.Device.{Bus, first_reg}
use rt_async.Driver.{Node, DriverInfo, Board, get_slot, set_slot, iter, matches}
use rt_async.Driver.Room.{register-length}
use rt_async.Uart as Uart
use rt_async.Clint as Clint
use rt_async.Clint.{clint_timer}
use rt_async.Msip as Msip
use rt_async.Msip.{clint_msip}
use rt_async.Finisher as Finisher
use rt_async.Finisher.{sifive_test}
use rt_async.Plic as Plic
use rt_async.Plic.{plic}
use rt_async.Platform.{ns16550a}
use rt_async.Boot.{
  Devices, Tree, probe_uart, probe_timer, probe_msip, probe_finisher, probe_plic, probe_device,
}

-- The devices in the slots, and the number of those in the registry of serial devices
pub record View : Type 0 where
  pub timer : Option ℕ
  pub ipi : Option ℕ
  pub reset : Option ℕ
  pub intc : Option ℕ
  pub serials : ℕ

abbrev pub view : {S : Type 0} → Board (Devices S) → View
view b = record {
  timer = get_slot b.devices.clint.timer;
  ipi = get_slot b.devices.msip.ipi;
  reset = get_slot b.devices.finisher.reset;
  intc = get_slot b.devices.plic.intc;
  serials = length (iter b.serials);
}

-- The probe of the driver with this name
abbrev pub effect : ℕ → View → View
effect name v =
    if name == ns16550a
    then record v { serials = suc v.serials }
    else (if name == clint_timer
        then record v { timer = some clint_timer }
        else (if name == clint_msip
            then record v { ipi = some clint_msip }
            else (if name == sifive_test
                then record v { reset = some sifive_test }
                else (if name == plic then record v { intc = some plic } else v))))

-- The probe of the driver with this name, if it matches
abbrev pub effect_if : Bool → ℕ → View → View
effect_if matched name v = if matched then effect name v else v

-- The probes of the drivers that match a node
unfoldable pub effects : List DriverInfo → Node → View → View
effects [] node v = v
effects (drv ∷ drivers) node v =
    effects drivers node (if matches drv.compatible node.compatibles then effect drv.name v else v)

unfoldable pub tree_effects : List DriverInfo → List Node → View → View
tree_effects drivers [] v = v
tree_effects drivers (node ∷ nodes) v = tree_effects drivers nodes (effects drivers node v)

effect-serials : (name : ℕ) (v : View) → v.serials ≤ (effect name v).serials
effect-serials name v = ground arith

effect_if-serials :
    (matched : Bool) (name : ℕ) (v : View) → v.serials ≤ (effect_if matched name v).serials
effect_if-serials true name v = effect-serials name v
effect_if-serials false name v = omega arith

pub effects-serials :
    (drivers : List DriverInfo) (node : Node) (v : View)
    → v.serials ≤ (effects drivers node v).serials
unfolding effects
effects-serials [] node v = omega arith
effects-serials (drv ∷ drivers) node v =
    let matched = matches drv.compatible node.compatibles in
    omega (
      arith,
      effects-serials drivers node (effect_if matched drv.name v),
      effect_if-serials matched drv.name v,
    )

pub tree_effects-serials :
    (drivers : List DriverInfo) (nodes : List Node) (v : View)
    → v.serials ≤ (tree_effects drivers nodes v).serials
unfolding tree_effects
tree_effects-serials drivers [] v = omega arith
tree_effects-serials drivers (node ∷ nodes) v = omega (
  arith,
  effects-serials drivers node v,
  tree_effects-serials drivers nodes (effects drivers node v),
)

module _ {S : Type 0} (bus : Bus S) (tree : Tree) where
  -- The `reg` property of the node has an address, and it is not 0.
  abbrev pub HasReg : Node → Type 0
  HasReg node = (base : ℕ) × (first_reg (tree.reg node) ≡ done base) × (base ≢ 0)

  -- What a probe leaves
  abbrev pub Probed : Board (Devices S) → View → Outcome (Board (Devices S)) → Type 0
  Probed b v result =
      (b' : Board (Devices S)) × (result ≡ done b')
      × (view b' ≡ v)
      × (b'.serials.capacity ≡ b.serials.capacity)
      × (b'.serials.next < b'.serials.capacity)

  module _ (node : Node) (b : Board (Devices S)) (reg : HasReg node)
      (cursor : b.serials.next < b.serials.capacity) where
    probe_timer_lem :
        Probed b (record (view b) { timer = some clint_timer }) (probe_timer bus tree node b)
    unfolding probe_timer Clint.probe get_slot set_slot
    probe_timer_lem = let (base, has, real) = reg in rw has (_, refl, refl, refl, cursor)

    probe_msip_lem :
        Probed b (record (view b) { ipi = some clint_msip }) (probe_msip bus tree node b)
    unfolding probe_msip Msip.probe get_slot set_slot
    probe_msip_lem = let (base, has, real) = reg in rw has (_, refl, refl, refl, cursor)

    probe_finisher_lem :
        Probed b (record (view b) { reset = some sifive_test }) (probe_finisher bus tree node b)
    unfolding probe_finisher Finisher.probe get_slot set_slot
    probe_finisher_lem = let (base, has, real) = reg in rw has (_, refl, refl, refl, cursor)

    probe_plic_lem : Probed b (record (view b) { intc = some plic }) (probe_plic bus tree node b)
    unfolding probe_plic Plic.probe get_slot set_slot
    probe_plic_lem = let (base, has, real) = reg in rw has (_, refl, refl, refl, cursor)

    probe_uart_lem :
        length (iter b.serials) < b.serials.capacity
        → Probed b
            (record (view b) { serials = suc (length (iter b.serials)) })
            (probe_uart bus tree node b)
    unfolding probe_uart Uart.probe Uart.regs
    probe_uart_lem room =
        let (base, has, real) = reg in
        let (idx, serials, e, more, same, next) = register-length b.serials ns16550a room cursor in
        let not_zero : (base == 0) ≡ false = ground (arith, real) in
        rw (has, not_zero, e) (_, refl, ap (λ n. record (view b) { serials = n }) more, same, next)

    pub probe_device_lem :
        (name : ℕ)
        → (effect name (view b)).serials ≤ b.serials.capacity
        → Probed b (effect name (view b)) (probe_device bus tree name node b)
    unfolding probe_device
    probe_device_lem name room = elim (eq-cases name ns16550a) [
      | inl uart ↦
          at ns16550a uart (
            probe_uart_lem
              (subst (λ n. (effect n (view b)).serials ≤ b.serials.capacity) uart room))
      | inr not_uart ↦ elim (eq-cases name clint_timer) [
        | inl timer ↦ at clint_timer timer probe_timer_lem
        | inr not_timer ↦ elim (eq-cases name clint_msip) [
          | inl msip ↦ at clint_msip msip probe_msip_lem
          | inr not_msip ↦ elim (eq-cases name sifive_test) [
            | inl finisher ↦ at sifive_test finisher probe_finisher_lem
            | inr not_finisher ↦ elim (eq-cases name plic) [
              | inl is_plic ↦ at plic is_plic probe_plic_lem
              | inr not_plic ↦ (
                b,
                ground (arith, not_uart, not_timer, not_msip, not_finisher, not_plic),
                ground (arith, not_uart, not_timer, not_msip, not_finisher, not_plic),
                refl,
                cursor,
              )
            ]
          ]
        ]
      ]
    ]
      where
        at :
            (n : ℕ)
            → name ≡ n
            → Probed b (effect n (view b)) (probe_device bus tree n node b)
            → Probed b (effect name (view b)) (probe_device bus tree name node b)
        at n e = subst (λ x. Probed b (effect x (view b)) (probe_device bus tree x node b)) (sym e)
