-- ===== src/Uart/Transmit.antt =====
-- `write` of serial_ns16550a.rs on a device that has room again after some number of polls.
use rt_async.Base.{
  ℕ, zero, suc, ◌+◌, ◌<◌, ◌≤◌, ◌≡◌, ◌≢◌, List, [], ◌∷◌, ◌++◌, some, bit_and, arith, refl, ◌∙◌, ap,
  eq-cases, inl, inr, sym,
}
use rt_async.Base.Outcome.{done}
use mathlib.Core.List.{append_assoc, append-nil}
use rt_async.Device.{Bus}
use rt_async.Uart.{Uart, regs, lsr_is_set, wait_thre, write_bytes, write}

-- What the manual says of the transmitter at these addresses. `busy` is the number of polls of the line
-- status until the transmitter has room, at most `limit`, and `sent` what it was given in order. A byte
-- that is written while it has no room is lost, so nothing is said of that.
pub record Transmits {S : Type 0} (bus : Bus S) (r : ℕ) (sent : S → List ℕ) (busy : S → ℕ)
    (limit : ℕ) : Type 0 where
  pub poll_busy :
      (s : S)
      → 0 < busy s
      → (bit_and (bus.read 8 s (r + 5)).0 0x20 ≡ 0)
        × (busy (bus.read 8 s (r + 5)).1 < busy s)
        × (sent (bus.read 8 s (r + 5)).1 ≡ sent s)
  pub poll_free :
      (s : S)
      → busy s ≡ 0
      → (bit_and (bus.read 8 s (r + 5)).0 0x20 ≢ 0)
        × (busy (bus.read 8 s (r + 5)).1 ≡ 0)
        × (sent (bus.read 8 s (r + 5)).1 ≡ sent s)
  pub put_free :
      (s : S) (byte : ℕ)
      → busy s ≡ 0
      → (sent (bus.write 8 s r byte) ≡ sent s ++ (byte ∷ []))
        × (busy (bus.write 8 s r byte) ≤ limit)

module _ {S : Type 0} (bus : Bus S) (sent : S → List ℕ) (busy : S → ℕ) (limit fuel r : ℕ)
    (transmits : Transmits bus r sent busy limit) where
  wait_thre_lem :
      (n : ℕ) (s : S)
      → busy s < n
      → (s' : S) × (wait_thre bus n r s ≡ some s') × (busy s' ≡ 0) × (sent s' ≡ sent s)
  unfolding wait_thre lsr_is_set
  wait_thre_lem zero s h = absurd (omega arith)
  wait_thre_lem (suc n) s h = elim (eq-cases (busy s) 0) [
    | inl free ↦
        let (up, still, same) = transmits.poll_free s free in
        ((bus.read 8 s (r + 5)).1, ground (arith, up), still, same)
    | inr waits ↦
        let (down, less, same) = transmits.poll_busy s (omega arith) in
        let (s', e, b, t) = wait_thre_lem n (bus.read 8 s (r + 5)).1 (omega arith) in
        (s', ground (arith, down, e), b, t ∙ same)
  ]

  write_bytes_lem :
      (buf : List ℕ) (s : S)
      → busy s ≤ limit
      → limit < fuel
      → (s' : S) × (write_bytes bus fuel r s buf ≡ some s')
        × (sent s' ≡ sent s ++ buf)
        × (busy s' ≤ limit)
  unfolding write_bytes
  write_bytes_lem [] s h enough = (s, refl, sym (append-nil (sent s)), h)
  write_bytes_lem (byte ∷ buf) s h enough =
      let (s₁, e₁, b₁, t₁) = wait_thre_lem fuel s (omega arith) in
      let (t₂, b₂) = transmits.put_free s₁ byte b₁ in
      let (s₃, e₃, t₃, b₃) = write_bytes_lem buf (bus.write 8 s₁ r byte) b₂ enough in
      (
        s₃,
        rw (e₁, write_bytes) e₃,
        t₃
            ∙ ap (λ xs. xs ++ buf) (t₂ ∙ ap (λ xs. xs ++ (byte ∷ [])) t₁)
            ∙ append_assoc (sent s) (byte ∷ []) buf,
        b₃,
      )

  regs_lem : (u : Uart S) → u.base ≡ r → r ≢ 0 → regs u ≡ done r
  unfolding regs
  regs_lem u at probed = ground (arith, at)

  -- `write` on a probed device that documents its room and its bytes, with more fuel than polls
  -- that it may take to have room: it ends without a panic, and the device was given exactly the
  -- bytes of the buffer, in order, each when it had room.
  pub write_lem :
      (u : Uart S) (buf : List ℕ)
      → u.base ≡ r
      → r ≢ 0
      → busy u.hardware ≤ limit
      → limit < fuel
      → (u' : Uart S) × (write bus fuel u buf ≡ some (done u'))
        × (sent u'.hardware ≡ sent u.hardware ++ buf)
        × (busy u'.hardware ≤ limit)
        × (u'.base ≡ r)
  unfolding write
  write_lem u buf at probed h enough =
      let found = regs_lem u at probed in
      let (s', e, t, b) = write_bytes_lem buf u.hardware h enough in
      (record u { hardware = s' }, rw (found, write) (rw (e, write) refl), t, b, at)
