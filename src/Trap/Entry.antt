-- ===== src/Trap/Entry.antt =====
-- What the interrupted code finds after a trap.
use rt_async.Base.{
  inr, inl, eq-cases, ℕ, ◌+◌, ◌^◌, ◌<◌, ◌≤◌, ◌≡◌, ◌≢◌, arith, refl, ◌∙◌, sym, ap, true,
}
use rt_async.Trap.{Machine, before_call, after_call, trap_entry, saved}
use rt_async.Trap.Frame.{contains, Holds-same}
use rt_async.Trap.Align.{frame_at}
use rt_async.Trap.Halves.{pushed, before_lem, after_lem}

-- Every register but `x0` and the stack pointer has a word in the frame.
saved_all : (r : ℕ) → 0 < r → r < 32 → r ≢ 2 → contains saved r ≡ true
saved_all r lo hi ne = ground (arith, ne)

-- The handler gives back the stack pointer and leaves the frame as it is.
pub record Returns (before after : Machine) (frame : ℕ) : Type 0 where
  pub stack : after.x 2 ≡ before.x 2
  pub words : (k : ℕ) → k < 264 → after.mem (frame + k) ≡ before.mem (frame + k)

-- A trap on a stack with room for its frame, with a handler that gives back the stack pointer and
-- leaves the frame as it is: all registers but `t0`, and the two control registers, have the values
-- of the interrupted code; `t0` has its stack pointer instead; memory is as the handler left it,
-- and the words from the interrupted stack pointer on were not changed before the handler.
pub trap_entry_lem :
    (trap_handler : Machine → Machine) (m : Machine)
    → 288 ≤ m.x 2
    → m.x 2 < 2 ^ 64
    → Returns (before_call m) (trap_handler (before_call m)) (frame_at (m.x 2))
    → ((r : ℕ) → 0 < r → r < 32 → r ≢ 5 → (trap_entry trap_handler m).x r ≡ m.x r)
      × ((trap_entry trap_handler m).x 5 ≡ m.x 2)
      × ((trap_entry trap_handler m).mepc ≡ m.mepc)
      × ((trap_entry trap_handler m).mstatus ≡ m.mstatus)
      × ((trap_entry trap_handler m).mem ≡ (trap_handler (before_call m)).mem)
      × ((a : ℕ) → m.x 2 ≤ a → (before_call m).mem a ≡ m.mem a)
trap_entry_lem trap_handler m lo hi returns =
    let frame = frame_at (m.x 2) in
    let (b, eb, sp_b, _, holds, pc, st, old, others) =
      before_lem saved (omega arith) m (m.x 2) refl lo hi in
    let is_b : before_call m ≡ b = unfold before_call in eb in
    let h = trap_handler (before_call m) in
    let same : (k : ℕ) → k < 264 → h.mem (frame + k) ≡ b.mem (frame + k) =
      λ k l. returns.words k l ∙ ap (λ z. z.mem (frame + k)) is_b in
    let (a, ea, x, top, pc', st', mem) =
      after_lem saved (omega arith) h (pushed m) frame (returns.stack ∙ ap (λ z. z.x 2) is_b ∙ sp_b)
        (omega arith) refl
        (Holds-same (pushed m) frame 0 saved b.mem h.mem (λ k l u. same k (omega arith)) holds) in
    let is_a : trap_entry trap_handler m ≡ a = unfold trap_entry in unfold after_call in ea in
    (
      (λ r l u ne. ap (λ z. z.x r) is_a ∙ (elim (eq-cases r 2) [
        | inl e ↦ ap a.x e ∙ top ∙ same 256 (omega arith) ∙ old ∙ ap m.x (sym e)
        | inr other ↦ x r (saved_all r l u other) ∙ ground (arith, ne, other)
      ])),
      ap (λ z. z.x 5) is_a ∙ x 5 refl,
      ap (λ z. z.mepc) is_a ∙ pc' ∙ same 240 (omega arith) ∙ pc,
      ap (λ z. z.mstatus) is_a ∙ st' ∙ same 248 (omega arith) ∙ st,
      ap (λ z. z.mem) is_a ∙ mem,
      (λ k l. ap (λ z. z.mem k) is_b ∙ others k l),
    )

-- Code that gives back the stack pointer and writes nothing from it on.
abbrev pub KeepsStack : Machine → Machine → Type 0
KeepsStack before after =
    (after.x 2 ≡ before.x 2) × ((a : ℕ) → before.x 2 ≤ a → after.mem a ≡ before.mem a)

-- If the handler gives back the stack pointer and writes nothing from it on, then so does the whole
-- trap up to its `mret`, on a stack with room for its frame.
pub trap_entry-KeepsStack :
    (trap_handler : Machine → Machine) (m : Machine)
    → 288 ≤ m.x 2
    → m.x 2 < 2 ^ 64
    → KeepsStack (before_call m) (trap_handler (before_call m))
    → KeepsStack m (trap_entry trap_handler m)
trap_entry-KeepsStack trap_handler m lo hi (stack, above) =
    let (b, eb, sp_b, _, _, _, _, _, _) = before_lem saved (omega arith) m (m.x 2) refl lo hi in
    let is_b : before_call m ≡ b = unfold before_call in eb in
    let at : (before_call m).x 2 ≡ frame_at (m.x 2) = ap (λ z. z.x 2) is_b ∙ sp_b in
    let (x, _, _, _, mem, before) =
      trap_entry_lem trap_handler m lo hi
        (record { stack = stack; words = λ k h. above (frame_at (m.x 2) + k) (omega arith) }) in
    (
      x 2 (omega arith) (omega arith) (λ e. absurd (omega arith)),
      (λ a h. ap (λ f. f a) mem ∙ above a (omega arith) ∙ before a h),
    )
