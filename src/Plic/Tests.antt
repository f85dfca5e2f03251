-- ===== src/Plic/Tests.antt =====
-- Runs of plic_sifive.rs: on registers that keep what is written, and on a claim register with a queue
-- of interrupts behind it.
use rt_async.Base.{
  ℕ, ◌+◌, ◌%◌, ◌^◌, ◌<◌, ◌≤◌, ◌≡◌, ◌≢◌, ◌⊎◌, ◌==◌, if◌then◌else◌, List, [], ◌∷◌, none, some, update,
  arith, refl,
}
use rt_async.Base.Outcome.{done, panic}
use rt_async.Device.{Bus, first_reg}
use rt_async.Driver.{get_slot, set_slot, empty_slot}
use rt_async.Irq.{empty_table}
use rt_async.Irq as Irq
use rt_async.Plic.{
  Plic, ctx_regs, enable_regs, enable_irq, disable_irq, set_threshold, claim, complete, probe,
}
use rt_async.Plic.Registers.{Register, address, Keeps}
use rt_async.Plic.Controller.{enabling, view, meant}
use rt_async.Plic.Control.{perform, perform-meant}
use rt_async.Plic.Service.{Serves, claimed, perform_all, machine_external, machine_external_lem}

abbrev words : Bus (ℕ → ℕ)
words = record { read = λ w s a. (s a % 2 ^ 32, s); write = λ w s a v. update s a v }

abbrev peek : (ℕ → ℕ) → ℕ → ℕ
peek s a = s a % 2 ^ 32

abbrev Fits : Register → ℕ → Type 0
Fits r v = v < 2 ^ 32

written :
    (s : ℕ → ℕ) (a v b : ℕ) → v < 2 ^ 32 → peek (update s a v) b ≡ (if a == b then v else peek s b)
written s a v b h = ground (arith, h)

words-Keeps : (base : ℕ) → Keeps words base peek Fits
words-Keeps base = record {
  read_kept = λ s r h. refl;
  write_kept = λ s r v r' h h' fits. written s (address base r) v (address base r') fits;
  peek-lt = λ s r h. omega arith;
}

abbrev blank : Plic (ℕ → ℕ)
blank = record { base = 0; context = 0; intc = empty_slot; hardware = λ a. 0 }

abbrev virt : Plic (ℕ → ℕ)
virt = record {
  base = 0x0c00_0000;
  context = 2;
  intc = set_slot 1;
  hardware = update (λ a. 0) (0x0c00_0000 + 0x202000) 0;
}

probe_run : probe words 1 blank (some (0x0c00_0000 ∷ [])) ≡ done virt
unfolding probe first_reg set_threshold ctx_regs
probe_run = refl

probe_missing : probe words 1 blank none ≡ panic
unfolding probe first_reg
probe_missing = refl

enable_run : (enable_irq words virt 42).hardware 0x0c00_2104 ≡ 1024
unfolding enable_irq enable_regs
enable_run = refl

disable_run : (disable_irq words (enable_irq words virt 42) 42).hardware 0x0c00_2104 ≡ 0
unfolding enable_irq disable_irq enable_regs
disable_run = refl

perform-meant_example :
    (view virt.base (peek (perform words virt (enabling 42)).hardware)
      ≡ meant virt.context (enabling 42) (view virt.base (peek virt.hardware)))
    × ((perform words virt (enabling 42)).base ≡ virt.base)
    × ((perform words virt (enabling 42)).context ≡ virt.context)
    × ((perform words virt (enabling 42)).intc ≡ virt.intc)
perform-meant_example =
    perform-meant words peek Fits virt (words-Keeps 0x0c00_0000) (omega arith, omega arith)
      (enabling 42) (omega arith) (omega arith)

-- The interrupts that wait, and those that are claimed and not completed.
record Queue : Type 0 where
  waiting : List ℕ
  serving : List ℕ

abbrev pop : Queue → List ℕ → ℕ × Queue
pop q [] = (0, q)
pop q (irq ∷ rest) =
    (irq, record { waiting = rest; serving = (if irq == 0 then q.serving else irq ∷ q.serving) })

abbrev finish : ℕ → List ℕ → List ℕ
finish irq [] = []
finish irq (x ∷ xs) = if x == irq then xs else x ∷ xs

abbrev gateway : Bus Queue
gateway = record {
  read = λ w q a. pop q q.waiting;
  write = λ w q a v. record q { serving = (if v == 0 then q.serving else finish v q.serving) };
}

pop_none : (q : Queue) (xs : List ℕ) → (pop q xs).0 ≡ 0 → (pop q xs).1.serving ≡ q.serving
pop_none q [] e = refl
pop_none q (irq ∷ rest) e = ground (arith, e)

pop_some :
    (q : Queue) (xs : List ℕ) → (pop q xs).0 ≢ 0 → (pop q xs).1.serving ≡ (pop q xs).0 ∷ q.serving
pop_some q [] real = absurd (real refl)
pop_some q (irq ∷ rest) real = ground (arith, real)

finish_last :
    (q : Queue) (irq : ℕ) (others : List ℕ)
    → irq ≢ 0
    → q.serving ≡ irq ∷ others
    → (if irq == 0 then q.serving else finish irq q.serving) ≡ others
finish_last q irq others real last = ground (arith, real, last)

gateway-Serves : (at : ℕ) → Serves gateway at (λ q. q.serving)
gateway-Serves at = record {
  claim_none = λ q e. pop_none q q.waiting e;
  claim_some = λ q real. pop_some q q.waiting real;
  complete_none = λ q. refl;
  complete_last = λ q irq others real last. finish_last q irq others real last;
}

abbrev raised : Plic Queue
raised = record {
  base = 0x0c00_0000;
  context = 2;
  intc = set_slot 1;
  hardware = record { waiting = 42 ∷ []; serving = 7 ∷ [] };
}

external_run :
    machine_external gateway (λ ptr irq q. q) empty_table raised
    ≡ done (record raised { hardware = record { waiting = []; serving = 7 ∷ [] } })
unfolding machine_external get_slot set_slot claim ctx_regs Irq.dispatch_external empty_table
    complete perform_all
external_run = refl

machine_external_lem_example :
    ((96 ≤ claimed gateway (λ ptr irq q. q) raised)
      × (machine_external gateway (λ ptr irq q. q) empty_table raised ≡ panic))
    ⊎ ((claimed gateway (λ ptr irq q. q) raised < 96)
        × ((p' : Plic Queue) × (machine_external gateway (λ ptr irq q. q) empty_table raised
              ≡ done p')
            × (p'.hardware.serving ≡ raised.hardware.serving)))
machine_external_lem_example =
    machine_external_lem gateway (λ ptr irq q. q) (λ q. q.serving) raised
      (gateway-Serves (ctx_regs raised + 4)) (λ ptr irq q. refl) empty_table 1 slot_run
  where
    slot_run : get_slot raised.intc ≡ some 1
    slot_run = unfold get_slot in unfold set_slot in refl
