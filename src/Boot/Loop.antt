-- ===== src/Boot/Loop.antt =====
-- The boot loop of driver.rs over the drivers of modules/platform/src/drivers: its turns, and all of it.
use rt_async.Base.{
  ℕ, ◌≤◌, ◌<◌, ◌≡◌, true, false, List, [], ◌∷◌, arith, refl, ◌∙◌, ap, sym, subst, All, Bool-cases,
  inl, inr, none, some, Option-cases, ltb, if◌then◌else◌, Bool,
}
use rt_async.Base.Outcome.{done, ◌>>=◌}
use rt_async.Device.{Bus}
use rt_async.Driver.{
  Node, DriverInfo, Board, get_slot, set_slot, iter, matches, probe_all, visit, visit_all, boot,
  apply_pinctrl, enable_clock, bus_stack_pop_to, bus_stack_reset, try_derive_console, probes,
}
use rt_async.Boot.{Devices, Tree, probe_device}
use rt_async.Boot.Effects.{
  view, effect, effect_if, effects, tree_effects, tree_effects-serials, effects-serials, HasReg,
  Probed, probe_device_lem,
}

module _ {S : Type 0} where
  -- What a view depends on is the same.
  abbrev Same : Board (Devices S) → Board (Devices S) → Type 0
  Same b b' = (b'.devices ≡ b.devices) × (b'.serials ≡ b.serials)

  pop-Same :
      (b : Board (Devices S)) (popped : Bool) (level : ℕ)
      → Same b (if popped then bus_stack_pop_to b level else b)
  unfolding bus_stack_pop_to
  pop-Same b true level = ground arith
  pop-Same b false level = (refl, refl)

  pinctrl-Same : (b : Board (Devices S)) (node : Node) → Same b (apply_pinctrl b node)
  unfolding apply_pinctrl
  pinctrl-Same b node = elim (Option-cases (get_slot b.pinctrl)) [
    | inl off ↦ rw (off, apply_pinctrl) (refl, refl)
    | inr (pc, on) ↦ rw (on, apply_pinctrl) (refl, refl)
  ]

  clock-Same : (b : Board (Devices S)) (node : Node) → Same b (enable_clock b node)
  unfolding enable_clock
  clock-Same b node = elim (Option-cases (get_slot b.clock)) [
    | inl off ↦ rw (off, enable_clock) (refl, refl)
    | inr (cc, on) ↦ rw (on, enable_clock) (refl, refl)
  ]

  console-Same : (b : Board (Devices S)) → Same b (try_derive_console b)
  unfolding try_derive_console
  console-Same b = split (iter b.serials) refl
    where
      split : (devices : List ℕ) → iter b.serials ≡ devices → Same b (try_derive_console b)
      split [] e = rw (e, try_derive_console) (refl, refl)
      split (dev ∷ others) e = rw (e, try_derive_console) (refl, refl)

  -- The end of a turn: the console is derived if there is none.
  abbrev settle : Board (Devices S) → Board (Devices S)
  settle b = elim (get_slot b.console) [ none ↦ try_derive_console b | some dev ↦ b ]

  settle-Same : (b : Board (Devices S)) → Same b (settle b)
  settle-Same b = elim (Option-cases (get_slot b.console)) [
    | inl off ↦ rw (off, settle) (console-Same b)
    | inr (dev, on) ↦ rw (on, settle) (refl, refl)
  ]

  view-Same : (b b' : Board (Devices S)) → Same b b' → view b' ≡ view b
  view-Same b b' (p, q) = cc

module _ {S : Type 0} (bus : Bus S) (tree : Tree) where
  -- Every node that a driver matches has a `reg` property with an address that is not 0.
  abbrev pub HasRegs : List DriverInfo → Node → Type 0
  HasRegs drivers node =
      All (λ drv. matches drv.compatible node.compatibles ≡ true → HasReg bus tree node) drivers

  probe_all_lem :
      (drivers : List DriverInfo) (node : Node) (b : Board (Devices S))
      → HasRegs drivers node
      → (effects drivers node (view b)).serials ≤ b.serials.capacity
      → b.serials.next < b.serials.capacity
      → Probed bus tree b
          (effects drivers node (view b))
          (probe_all (probe_device bus tree) drivers node b)
  unfolding probe_all effects
  probe_all_lem [] node b regs room cursor = (b, refl, refl, refl, cursor)
  probe_all_lem (drv ∷ drivers) node b (reg, regs) room cursor =
      elim (Bool-cases (matches drv.compatible node.compatibles)) [
        | inr off ↦
            let room_off =
              subst
                (λ m.
                  (effects drivers node (effect_if m drv.name (view b))).serials
                  ≤ b.serials.capacity)
                off room in
            rw off (probe_all_lem drivers node b regs room_off cursor)
        | inl on ↦
            let room_on =
              subst
                (λ m.
                  (effects drivers node (effect_if m drv.name (view b))).serials
                  ≤ b.serials.capacity)
                on room in
            let asked = record b { log = probes drv.name node.name ∷ b.log } in
            let (b₁, e₁, view₁, same₁, next₁) =
              probe_device_lem bus tree node asked (reg on) cursor drv.name
                (omega (arith, effects-serials drivers node (effect drv.name (view b)), room_on)) in
            let room₁ : (effects drivers node (view b₁)).serials ≤ b₁.serials.capacity =
              omega (arith, ap (λ w. (effects drivers node w).serials) view₁, same₁, room_on) in
            let (b₂, e₂, view₂, same₂, next₂) = probe_all_lem drivers node b₁ regs room₁ next₁ in
            rw on (
              b₂,
              ap (λ r. r >>= probe_all (probe_device bus tree) drivers node) e₁ ∙ e₂,
              view₂ ∙ ap (effects drivers node) view₁,
              same₂ ∙ same₁,
              next₂,
            )
      ]

  visit_lem :
      (drivers : List DriverInfo) (prev_level : ℕ) (node : Node) (b : Board (Devices S))
      → HasRegs drivers node
      → (effects drivers node (view b)).serials ≤ b.serials.capacity
      → b.serials.next < b.serials.capacity
      → Probed bus tree b
          (effects drivers node (view b))
          (visit (probe_device bus tree) drivers prev_level node b)
  unfolding visit
  visit_lem drivers prev_level node b regs room cursor =
      let b₁ = if ltb node.level prev_level then bus_stack_pop_to b node.level else b in
      let (d₁, s₁) = pop-Same b (ltb node.level prev_level) node.level in
      let (d₂, s₂) = pinctrl-Same b₁ node in
      let (d₃, s₃) = clock-Same (apply_pinctrl b₁ node) node in
      let ready = enable_clock (apply_pinctrl b₁ node) node in
      let same : ready.serials ≡ b.serials = s₃ ∙ s₂ ∙ s₁ in
      let seen : view ready ≡ view b = view-Same b ready (d₃ ∙ d₂ ∙ d₁, same) in
      let room₁ : (effects drivers node (view ready)).serials ≤ ready.serials.capacity =
        omega (
          arith,
          ap (λ w. (effects drivers node w).serials) seen,
          ap (λ r. r.capacity) same,
          room,
        ) in
      let (b₂, e, view₂, same₂, next) =
        probe_all_lem drivers node ready regs room₁
          (subst (λ r. r.next < r.capacity) (sym same) cursor) in
      let (d₄, s₄) = settle-Same b₂ in
      (
        settle b₂,
        ap (λ r. r >>= λ b'. done (settle b')) e,
        view-Same b₂ (settle b₂) (d₄, s₄) ∙ view₂ ∙ ap (effects drivers node) seen,
        ap (λ r. r.capacity) s₄ ∙ same₂ ∙ ap (λ r. r.capacity) same,
        subst (λ r. r.next < r.capacity) (sym s₄) next,
      )

  visit_all_lem :
      (drivers : List DriverInfo) (prev_level : ℕ) (nodes : List Node) (b : Board (Devices S))
      → All (HasRegs drivers) nodes
      → (tree_effects drivers nodes (view b)).serials ≤ b.serials.capacity
      → b.serials.next < b.serials.capacity
      → Probed bus tree b
          (tree_effects drivers nodes (view b))
          (visit_all (probe_device bus tree) drivers prev_level nodes b)
  unfolding visit_all tree_effects
  visit_all_lem drivers prev_level [] b regs room cursor = (b, refl, refl, refl, cursor)
  visit_all_lem drivers prev_level (node ∷ nodes) b (reg, regs) room cursor =
      let (b₁, e₁, view₁, same₁, next₁) =
        visit_lem drivers prev_level node b reg
          (omega (arith, tree_effects-serials drivers nodes (effects drivers node (view b)), room))
          cursor in
      let room₁ : (tree_effects drivers nodes (view b₁)).serials ≤ b₁.serials.capacity =
        omega (arith, ap (λ w. (tree_effects drivers nodes w).serials) view₁, same₁, room) in
      let (b₂, e₂, view₂, same₂, next₂) =
        visit_all_lem drivers node.level nodes b₁ regs room₁ next₁ in
      (
        b₂,
        ap (λ r. r >>= visit_all (probe_device bus tree) drivers node.level nodes) e₁ ∙ e₂,
        view₂ ∙ ap (tree_effects drivers nodes) view₁,
        same₂ ∙ same₁,
        next₂,
      )

  -- The boot loop over any list of the drivers ends, and it leaves in the slots what the fold says, with
  -- the first serial device as the console.
  pub boot-view :
      (drivers : List DriverInfo) (nodes : List Node) (b : Board (Devices S))
      → All (HasRegs drivers) nodes
      → (tree_effects drivers nodes (view b)).serials ≤ b.serials.capacity
      → b.serials.next < b.serials.capacity
      → Probed bus tree b
          (tree_effects drivers nodes (view b))
          (boot (probe_device bus tree) (set_slot drivers) nodes b)
  unfolding boot bus_stack_reset get_slot set_slot
  boot-view drivers nodes b regs room cursor =
      let (b₁, e, view₁, same, next) =
        visit_all_lem drivers 1 nodes (bus_stack_reset b) regs room cursor in
      let (d, s) = console-Same b₁ in
      (
        try_derive_console b₁,
        ap (λ r. r >>= λ b'. done (try_derive_console b')) e,
        view-Same b₁ (try_derive_console b₁) (d, s) ∙ view₁,
        ap (λ r. r.capacity) s ∙ same,
        subst (λ r. r.next < r.capacity) (sym s) next,
      )
