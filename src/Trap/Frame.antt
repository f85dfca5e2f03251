-- ===== src/Trap/Frame.antt =====
-- The words of a frame: what a run of stores leaves and a run of loads puts back.
use rt_async.Base.{
  ℕ, ◌+◌, ◌*◌, ◌%◌, ◌^◌, ◌<◌, ◌≤◌, ◌≡◌, List, [], ◌∷◌, length, update, arith, refl, ◌∙◌, ap, ◌==◌,
  if◌then◌else◌, Bool, true, false,
}
use rt_async.Trap.{Machine, exec, execs, stores, loads, set_x, sp}

-- The words from an offset on are the values of the registers of a list.
abbrev pub Holds : (ℕ → ℕ) → ℕ → ℕ → List ℕ → (ℕ → ℕ) → Type 0
Holds values frame off [] mem = Unit {0}
Holds values frame off (r ∷ rs) mem =
    (mem (frame + off) ≡ values r) × Holds values frame (off + 8) rs mem

abbrev pub contains : List ℕ → ℕ → Bool
contains [] r = false
contains (s ∷ rs) r = if s == r then true else contains rs r

-- `Holds` looks at the words of the frame alone.
pub Holds-same :
    (values : ℕ → ℕ) (frame off : ℕ) (rs : List ℕ) (mem mem' : ℕ → ℕ)
    → ((k : ℕ) → off ≤ k → k < off + 8 * length rs → mem' (frame + k) ≡ mem (frame + k))
    → Holds values frame off rs mem
    → Holds values frame off rs mem'
Holds-same values frame off [] mem mem' same h = h
Holds-same values frame off (r ∷ rs) mem mem' same (e, h) = (
  same off (omega arith) (omega arith) ∙ e,
  Holds-same values frame (off + 8) rs mem mem' (λ k lo hi. same k (omega arith) (omega arith)) h,
)

-- A run of stores changes the words of its registers only.
pub stores_lem :
    (rs : List ℕ) (m : Machine) (frame off : ℕ)
    → m.x sp ≡ frame
    → frame + off + 8 * length rs < 2 ^ 64
    → (m' : Machine) × (execs (stores off rs) m ≡ m')
      × (m'.x ≡ m.x)
      × (m'.mepc ≡ m.mepc)
      × (m'.mstatus ≡ m.mstatus)
      × Holds m.x frame off rs m'.mem
      × ((a : ℕ) → a < frame + off → m'.mem a ≡ m.mem a)
      × ((a : ℕ) → frame + off + 8 * length rs ≤ a → m'.mem a ≡ m.mem a)
unfolding execs stores exec
stores_lem [] m frame off at room = (m, refl, refl, refl, refl, tt, (λ a h. refl), λ a h. refl)
stores_lem (r ∷ rs) m frame off at room =
    let here : (m.x sp + off) % 2 ^ 64 ≡ frame + off = omega arith in
    let m₁ : Machine = record m { mem = update m.mem ((m.x sp + off) % 2 ^ 64) (m.x r) } in
    let (m₂, e, x, c, s, h, below, above) = stores_lem rs m₁ frame (off + 8) at (omega arith) in
    (
      m₂,
      e,
      x,
      c,
      s,
      (below (frame + off) (omega arith) ∙ ground (arith, here), h),
      (λ a lo. below a (omega arith) ∙ ground (arith, here, lo)),
      λ a hi. above a (omega arith) ∙ ground (arith, here, hi),
    )

-- A run of loads gives each register of its list the value that its word holds.
pub loads_lem :
    (rs : List ℕ) (m : Machine) (values : ℕ → ℕ) (frame off : ℕ)
    → m.x sp ≡ frame
    → frame + off + 8 * length rs < 2 ^ 64
    → contains rs sp ≡ false
    → Holds values frame off rs m.mem
    → (m' : Machine) × (execs (loads off rs) m ≡ m')
      × ((r : ℕ) → m'.x r ≡ (if contains rs r then values r else m.x r))
      × (m'.mepc ≡ m.mepc)
      × (m'.mstatus ≡ m.mstatus)
      × (m'.mem ≡ m.mem)
unfolding execs loads exec
loads_lem [] m values frame off at room no_sp h = (m, refl, (λ r. refl), refl, refl, refl)
loads_lem (r ∷ rs) m values frame off at room no_sp (e, h) =
    let here : m.mem ((m.x sp + off) % 2 ^ 64) ≡ values r =
      ap m.mem {x = (m.x sp + off) % 2 ^ 64} {y = frame + off} (omega arith) ∙ e in
    let m₁ = set_x m r (m.mem ((m.x sp + off) % 2 ^ 64)) in
    let (m₂, done, x, c, s, k) =
      loads_lem rs m₁ values frame (off + 8) (ground (arith, no_sp, at)) (omega arith)
        (ground (arith, no_sp)) h in
    (m₂, done, (λ q. x q ∙ ground (arith, here)), c, s, k)
