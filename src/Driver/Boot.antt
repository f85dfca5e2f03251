-- ===== src/Driver/Boot.antt =====
-- The boot loop of driver.rs, with the bus stacks of bus.rs.
use rt_async.Base.{
  ℕ, ◌≡◌, ◌≢◌, inl, inr, Option, none, some, List, [], ◌∷◌, ◌++◌, if◌then◌else◌, ltb, refl, arith,
  ◌∙◌, sym, ap, subst, Option-cases, Bool-cases,
}
use rt_async.Base.Outcome.{Outcome, Outcome-cases, done}
use mathlib.Core.List.{append_assoc}
use rt_async.Driver.{
  Slot, Node, DriverInfo, Event, applies, enables, probes, Board, set_slot, get_slot, iter,
  bus_stack_reset, bus_stack_pop_to, try_derive_console, matches, apply_pinctrl, enable_clock,
  probe_all, visit, visit_all, boot,
}

-- The first serial device, or the console that was there if there is none.
abbrev pub derived : {D : Type 0} → Board D → Option ℕ
derived b = elim (iter b.serials) [ [] ↦ get_slot b.console | dev ∷ others ↦ some dev ]

-- What is asked of the devices for one node, the first at the end.
abbrev pub probed : List DriverInfo → Node → List Event
probed [] node = []
probed (drv ∷ drivers) node =
    if matches drv.compatible node.compatibles
    then probed drivers node ++ (probes drv.name node.name ∷ [])
    else probed drivers node

abbrev pub asked : Option ℕ → Option ℕ → List DriverInfo → Node → List Event
asked pinctrl clock drivers node =
    probed drivers node
    ++ ((elim clock [ none ↦ [] | some cc ↦ enables cc node.name ∷ [] ])
        ++ (elim pinctrl [ none ↦ [] | some pc ↦ applies pc node.name ∷ [] ]))

-- The console is the first serial device in the registry, if there is one.
abbrev pub HasConsole : {D : Type 0} → Board D → Type 0
HasConsole b = get_slot b.console ≡ derived b

derive-HasConsole : {D : Type 0} (b : Board D) → HasConsole (try_derive_console b)
unfolding try_derive_console get_slot set_slot
derive-HasConsole b = split (iter b.serials) refl
  where
    split : (devices : List ℕ) → iter b.serials ≡ devices → HasConsole (try_derive_console b)
    split [] e = rw (e, try_derive_console) (rw (e, derived))
    split (dev ∷ others) e = rw (e, try_derive_console) (rw (e, derived))

derive-log : {D : Type 0} (b : Board D) → (try_derive_console b).log ≡ b.log
unfolding try_derive_console
derive-log b = split (iter b.serials) refl
  where
    split : (devices : List ℕ) → iter b.serials ≡ devices → (try_derive_console b).log ≡ b.log
    split [] e = rw (e, try_derive_console) refl
    split (dev ∷ others) e = rw (e, try_derive_console) refl

-- The board just before the drivers of a node are probed.
abbrev prepare : {D : Type 0} → ℕ → Node → Board D → Board D
prepare prev_level node b =
    enable_clock
      (apply_pinctrl (if ltb node.level prev_level then bus_stack_pop_to b node.level else b) node)
      node

prepare-log :
    {D : Type 0} (prev_level : ℕ) (node : Node) (b : Board D)
    → (prepare prev_level node b).log
      ≡ ((elim (get_slot b.clock) [ none ↦ [] | some cc ↦ enables cc node.name ∷ [] ])
          ++ (elim (get_slot b.pinctrl) [ none ↦ [] | some pc ↦ applies pc node.name ∷ [] ]))
        ++ b.log
unfolding apply_pinctrl enable_clock bus_stack_pop_to
prepare-log prev_level node b = elim (Option-cases (get_slot b.pinctrl)) [
  | inl no_pc ↦ elim (Option-cases (get_slot b.clock)) [
    | inl no_cc ↦ ground (arith, no_pc, no_cc)
    | inr (cc, has_cc) ↦ ground (arith, no_pc, has_cc)
  ]
  | inr (pc, has_pc) ↦ elim (Option-cases (get_slot b.clock)) [
    | inl no_cc ↦ ground (arith, has_pc, no_cc)
    | inr (cc, has_cc) ↦ ground (arith, has_pc, has_cc)
  ]
]

module _ {D : Type 0} (probe : ℕ → Node → Board D → Outcome (Board D)) where
  -- If `boot` ends, the console is the first serial device in the registry, if there is one; and `boot`
  -- ends only with a driver list.
  pub boot-HasConsole :
      (slot : Slot (List DriverInfo)) (nodes : List Node) (b : Board D) {b' : Board D}
      → boot probe slot nodes b ≡ done b'
      → HasConsole b' × (get_slot slot ≢ none)
  unfolding boot
  boot-HasConsole slot nodes b {b'} e = elim (Option-cases (get_slot slot)) [
    | inl off ↦ absurd (ground (arith, off, e))
    | inr (drivers, on) ↦
        elim (Outcome-cases (visit_all probe drivers 1 nodes (bus_stack_reset b))) [
          | inl stop ↦ absurd (ground (arith, on, stop, e))
          | inr (b₁, ok) ↦
              let same : try_derive_console b₁ ≡ b' = ground (arith, on, ok, e) in
              (subst HasConsole same (derive-HasConsole b₁), λ off. cc)
        ]
  ]

  module _
      (keeps : (name : ℕ) (node : Node) (b b' : Board D)
        → probe name node b ≡ done b'
        → b'.log ≡ b.log) where
    probe_all-log :
        (drivers : List DriverInfo) (node : Node) (b b' : Board D)
        → probe_all probe drivers node b ≡ done b'
        → b'.log ≡ probed drivers node ++ b.log
    unfolding probe_all
    probe_all-log [] node b b' e = ground (arith, e)
    probe_all-log (drv ∷ drivers) node b b' e =
        elim (Bool-cases (matches drv.compatible node.compatibles)) [
          | inr off ↦ rw off (probe_all-log drivers node b b' (ground (arith, off, e)))
          | inl on ↦
              let asked_b = record b { log = probes drv.name node.name ∷ b.log } in
              elim (Outcome-cases (probe drv.name node asked_b)) [
                | inl stop ↦ absurd (ground (arith, on, stop, e))
                | inr (b₁, ok) ↦ rw on (
                    probe_all-log drivers node b₁ b' (ground (arith, on, ok, e))
                    ∙ ap (λ x. probed drivers node ++ x) (keeps drv.name node asked_b b₁ ok)
                    ∙ sym
                        (append_assoc (probed drivers node) (probes drv.name node.name ∷ []) b.log))
              ]
        ]

    -- If no probe touches the log, then one turn of the boot loop asks of the devices, in this order: the
    -- pin controller to apply the node, the clock controller to enable it, each if there is one, and each
    -- driver that matches the node to probe it, in the order of the list; and nothing else.
    pub visit-log :
        (drivers : List DriverInfo) (prev_level : ℕ) (node : Node) (b b' : Board D)
        → visit probe drivers prev_level node b ≡ done b'
        → b'.log ≡ asked (get_slot b.pinctrl) (get_slot b.clock) drivers node ++ b.log
    unfolding visit apply_pinctrl enable_clock bus_stack_pop_to
    visit-log drivers prev_level node b b' e =
        elim (Outcome-cases (probe_all probe drivers node (prepare prev_level node b))) [
          | inl stop ↦ absurd (ground (arith, stop, e))
          | inr (b₁, ok) ↦
              let logged : b₁.log
                  ≡ asked (get_slot b.pinctrl) (get_slot b.clock) drivers node ++ b.log =
                probe_all-log drivers node (prepare prev_level node b) b₁ ok
                ∙ ap (λ x. probed drivers node ++ x) (prepare-log prev_level node b)
                ∙ sym (append_assoc (probed drivers node) _ b.log) in
              elim (Option-cases (get_slot b₁.console)) [
                | inl off ↦
                    let same : try_derive_console b₁ ≡ b' = ground (arith, ok, off, e) in
                    ap (λ x. x.log) (sym same) ∙ derive-log b₁ ∙ logged
                | inr (dev, on) ↦
                    let same : b₁ ≡ b' = ground (arith, ok, on, e) in
                    ap (λ x. x.log) (sym same) ∙ logged
              ]
        ]
