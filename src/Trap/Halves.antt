-- ===== src/Trap/Halves.antt =====
-- The code of entry.rs before and after the call of the handler.
use rt_async.Base.{
  inr, inl, eq-cases, subst, ne→==, ==_refl, ℕ, ◌+◌, ◌-◌, ◌%◌, ◌^◌, ◌<◌, ◌≤◌, ◌≡◌, ◌≢◌, List, [],
  ◌∷◌, length, update, arith, refl, ◌∙◌, sym, ap, true, false, bit_and,
}
use rt_async.Base.Bits.{bit_not}
use rt_async.Trap.{
  set_x, restore_csrs, ld, push_frame, save_csrs, Machine, exec, execs, sp, stores, loads,
}
use rt_async.Trap.Frame.{Holds, contains, Holds-same, stores_lem, loads_lem}
use rt_async.Trap.Align.{frame_at, push_lem}

-- The registers after `push_frame`
abbrev pub pushed : Machine → ℕ → ℕ
pushed m =
    update (update (update m.x 5 (m.x sp)) 2 ((m.x sp + 2 ^ 64 - 272) % 2 ^ 64)) 2
      (bit_and ((m.x sp + 2 ^ 64 - 272) % 2 ^ 64) (bit_not 64 15))

push_frame_lem :
    (m : Machine) (top : ℕ)
    → m.x sp ≡ top
    → 288 ≤ top
    → top < 2 ^ 64
    → (b : Machine) × (execs push_frame m ≡ b)
      × (b.x ≡ pushed m)
      × (b.x sp ≡ frame_at top)
      × (b.mepc ≡ m.mepc)
      × (b.mstatus ≡ m.mstatus)
      × (b.mem (frame_at top + 256) ≡ top)
      × ((a : ℕ) → a ≢ frame_at top + 256 → b.mem a ≡ m.mem a)
unfolding execs exec
push_frame_lem m top at lo hi =
    let pushed_sp : pushed m sp ≡ frame_at top =
      ap (λ t. bit_and ((t + 2 ^ 64 - 272) % 2 ^ 64) (bit_not 64 15)) at
      ∙ push_lem top (omega arith) hi in
    let slot : (pushed m sp + 256) % 2 ^ 64 ≡ frame_at top + 256 = omega (arith, pushed_sp) in
    (
      record m { x = pushed m; mem = update m.mem ((pushed m sp + 256) % 2 ^ 64) (m.x sp) },
      refl,
      refl,
      pushed_sp,
      refl,
      refl,
      rw (slot, ==_refl (frame_at top + 256)) at,
      (λ a ne. rw (slot, ne→== (frame_at top + 256) a (λ e. ne (sym e))) refl),
    )

save_csrs_lem :
    (m : Machine) (frame : ℕ)
    → m.x sp ≡ frame
    → frame + 264 < 2 ^ 64
    → (b : Machine) × (execs save_csrs m ≡ b)
      × (b.x sp ≡ frame)
      × (b.x 10 ≡ frame)
      × (b.mem (frame + 240) ≡ m.mepc)
      × (b.mem (frame + 248) ≡ m.mstatus)
      × ((a : ℕ) → a ≢ frame + 240 → a ≢ frame + 248 → b.mem a ≡ m.mem a)
unfolding execs exec
save_csrs_lem m frame at room =
    let first : (m.x sp + 240) % 2 ^ 64 ≡ frame + 240 = omega arith in
    let second : (m.x sp + 248) % 2 ^ 64 ≡ frame + 248 = omega arith in
    let mem : ℕ → ℕ =
      update (update m.mem ((m.x sp + 240) % 2 ^ 64) m.mepc) ((m.x sp + 248) % 2 ^ 64) m.mstatus in
    (
      record m { x = update (update (update m.x 5 m.mepc) 5 m.mstatus) 10 (m.x sp); mem = mem },
      refl,
      at,
      at,
      ground (arith, first, second),
      ground (arith, second),
      (λ a ne ne'. ground (arith, first, second, ne, ne')),
    )

restore_csrs_lem :
    (m : Machine) (frame : ℕ)
    → m.x sp ≡ frame
    → frame + 264 < 2 ^ 64
    → (b : Machine) × (execs restore_csrs m ≡ b)
      × (b.x sp ≡ frame)
      × (b.mepc ≡ m.mem (frame + 240))
      × (b.mstatus ≡ m.mem (frame + 248))
      × (b.mem ≡ m.mem)
unfolding execs exec
restore_csrs_lem m frame at room = (
  record m {
    x = update (update m.x 5 (m.mem ((m.x sp + 240) % 2 ^ 64))) 5 (m.mem ((m.x sp + 248) % 2 ^ 64));
    mepc = m.mem ((m.x sp + 240) % 2 ^ 64);
    mstatus = m.mem ((m.x sp + 248) % 2 ^ 64);
  },
  refl,
  at,
  ap m.mem {x = (m.x sp + 240) % 2 ^ 64} {y = frame + 240} (omega arith),
  ap m.mem {x = (m.x sp + 248) % 2 ^ 64} {y = frame + 248} (omega arith),
  refl,
)

load_sp : (m : Machine) → execs (ld sp 256 sp ∷ []) m ≡ set_x m sp (m.mem ((m.x sp + 256) % 2 ^ 64))
unfolding execs exec
load_sp m = refl

clash {ℓ} : {A : Type ℓ} → false ≡ true → A
clash e = absurd (cc)

-- The two halves over any list of registers that fits below the words of the control registers.
module _ (rs : List ℕ) (short : length rs ≤ 30) where
  pub before_lem :
      (m : Machine) (top : ℕ)
      → m.x sp ≡ top
      → 288 ≤ top
      → top < 2 ^ 64
      → (b : Machine) × (execs save_csrs (execs (stores 0 rs) (execs push_frame m)) ≡ b)
        × (b.x sp ≡ frame_at top)
        × (b.x 10 ≡ frame_at top)
        × Holds (pushed m) (frame_at top) 0 rs b.mem
        × (b.mem (frame_at top + 240) ≡ m.mepc)
        × (b.mem (frame_at top + 248) ≡ m.mstatus)
        × (b.mem (frame_at top + 256) ≡ top)
        × ((a : ℕ) → top ≤ a → b.mem a ≡ m.mem a)
  before_lem m top at lo hi =
      let frame = frame_at top in
      let room : frame + 272 ≤ top = omega arith in
      let (m₁, e₁, x₁, sp₁, c₁, s₁, old, others₁) = push_frame_lem m top at lo hi in
      let (m₂, e₂, x₂, c₂, s₂, holds, below, above) = stores_lem rs m₁ frame 0 sp₁ (omega arith) in
      let (b, e₃, sp₃, arg, pc, st, others₃) =
        save_csrs_lem m₂ frame (ap (λ f. f sp) x₂ ∙ sp₁) (omega arith) in
      (
        b,
        ap (λ z. execs save_csrs (execs (stores 0 rs) z)) e₁ ∙ ap (execs save_csrs) e₂ ∙ e₃,
        sp₃,
        arg,
        subst (λ f. Holds f frame 0 rs b.mem) x₁
            (Holds-same m₁.x frame 0 rs m₂.mem b.mem
              (λ k l h. others₃ (frame + k) (λ q. omega arith) (λ q. omega arith)) holds),
        pc ∙ c₂ ∙ c₁,
        st ∙ s₂ ∙ s₁,
        others₃ (frame + 256) (λ q. omega arith) (λ q. omega arith)
            ∙ above (frame + 256) (omega arith)
            ∙ old,
        (λ a h.
            others₃ a (λ q. omega arith) (λ q. omega arith)
            ∙ above a (omega arith)
            ∙ others₁ a (λ q. omega arith)),
      )

  pub after_lem :
      (m : Machine) (values : ℕ → ℕ) (frame : ℕ)
      → m.x sp ≡ frame
      → frame + 264 < 2 ^ 64
      → contains rs sp ≡ false
      → Holds values frame 0 rs m.mem
      → (b : Machine) × (execs (ld sp 256 sp ∷ []) (execs (loads 0 rs) (execs restore_csrs m)) ≡ b)
        × ((r : ℕ) → contains rs r ≡ true → b.x r ≡ values r)
        × (b.x sp ≡ m.mem (frame + 256))
        × (b.mepc ≡ m.mem (frame + 240))
        × (b.mstatus ≡ m.mem (frame + 248))
        × (b.mem ≡ m.mem)
  after_lem m values frame at room no_sp holds =
      let (m₁, e₁, sp₁, c₁, s₁, mem₁) = restore_csrs_lem m frame at room in
      let (m₂, e₂, x₂, c₂, s₂, mem₂) =
        loads_lem rs m₁ values frame 0 sp₁ (omega arith) no_sp
          (subst (Holds values frame 0 rs) (sym mem₁) holds) in
      let sp₂ : m₂.x sp ≡ frame = x₂ sp ∙ rw no_sp sp₁ in
      let v = m₂.mem ((m₂.x sp + 256) % 2 ^ 64) in
      (
        set_x m₂ sp v,
        ap (λ z. execs (ld sp 256 sp ∷ []) (execs (loads 0 rs) z)) e₁
            ∙ ap (execs (ld sp 256 sp ∷ [])) e₂
            ∙ load_sp m₂,
        (λ r inside. elim (eq-cases sp r) [
          | inl same ↦ clash (sym no_sp ∙ ap (contains rs) same ∙ inside)
          | inr other ↦ rw (ne→== sp r other) (x₂ r ∙ rw inside refl)
        ]),
        ap m₂.mem {x = (m₂.x sp + 256) % 2 ^ 64} {y = frame + 256} (omega (arith, sp₂))
            ∙ ap (λ f. f (frame + 256)) (mem₂ ∙ mem₁),
        c₂ ∙ c₁,
        s₂ ∙ s₁,
        mem₂ ∙ mem₁,
      )
