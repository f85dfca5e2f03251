-- ===== src/Kernel/Invariant.antt =====
-- What holds between the atomics and critical sections of executor.rs, spawner.rs and storage.rs: the bitmap
-- shows every ready executor, the priority stack rises, a task is linked at most once, and a task's
-- fields agree with its flags.
use rt_async.Base.{
  ℕ, suc, ◌+◌, ◌≤◌, ◌<◌, ◌≡◌, ◌≢◌, true, false, none, some, List, [], ◌∷◌, ◌++◌, arith, length,
  ◌==◌, if◌then◌else◌,
}
use rt_async.Bitmap.Digits.{IsValid, digit}
use rt_async.Task.{task_poll}
use rt_async.Task.State.Flags.{spawned, run_queued}
use rt_async.Kernel.{Spawner}

-- How often a task stands in a queue.
abbrev pub occurs : ℕ → List ℕ → ℕ
occurs t [] = 0
occurs t (x ∷ xs) = (if x == t then 1 else 0) + occurs t xs

pub occurs-append :
    (t x : ℕ) (xs : List ℕ) → occurs t (xs ++ (x ∷ [])) ≡ occurs t xs + (if x == t then 1 else 0)
occurs-append t x [] = ground arith
occurs-append t x (y ∷ xs) = ground (arith, occurs-append t x xs)

-- The priorities from the running one down: each number is above the one before it.
abbrev pub Rising : ℕ → ℕ → List ℕ → Type 0
Rising lo n [] = Unit {0}
Rising lo n (p ∷ ps) = (lo ≤ p) × (p < n) × Rising (suc p) n ps

pub length-Rising : (lo n : ℕ) (ps : List ℕ) → lo ≤ n → Rising lo n ps → length ps + lo ≤ n
length-Rising lo n [] h r = omega arith
length-Rising lo n (p ∷ ps) h r = omega (arith, length-Rising (suc p) n ps r.1 r.2, r.0)

pub Rising-weaken : (lo hi n : ℕ) (ps : List ℕ) → lo ≤ hi → Rising hi n ps → Rising lo n ps
Rising-weaken lo hi n [] h r = tt
Rising-weaken lo hi n (p ∷ ps) h r = (omega (arith, r.0), r.1, r.2)

module _ {Out : Type 0} where
  -- The scheduler's part.
  pub record Visible (s : Spawner Out) : Type 0 where
    pub ready : s.initialized ≡ true
    pub small : s.size ≤ 4096
    pub valid : IsValid s.bitmap
    pub groups : length s.bitmap.group_table ≡ 64
    pub inside : (p : ℕ) → digit s.bitmap p ≡ 1 → p < s.size
    pub shown : (p : ℕ) → s.run_queue p ≢ [] → digit s.bitmap p ≡ 1
    pub rising : Rising 0 s.size s.prio_stack

  -- A task whose queued flag is up is linked, once in all queues, or an `enqueue` under way is about to
  -- link it; one whose flag is down is neither.
  pub record Linked (s : Spawner Out) : Type 0 where
    pub once :
        (t p q : ℕ)
        → p ≢ q
        → occurs t (s.run_queue p) + occurs t (s.run_queue q) + s.linking t
          ≤ run_queued (s.tasks t).state
    pub somewhere :
        (t : ℕ)
        → run_queued (s.tasks t).state ≡ 1
        → s.linking t ≡ 0
        → (p : ℕ) × (0 < occurs t (s.run_queue p))

  -- A task that is spawned holds a live future and its poll function; one that is not holds none.
  -- A task that is linked, or that a wake can link, has a poll function and an executor.
  pub record Alive (s : Spawner Out) : Type 0 where
    pub live :
        (t : ℕ)
        → spawned (s.tasks t).state ≡ 1
        → ((s.tasks t).poll_fn ≡ some task_poll) × ((s.tasks t).future ≡ true)
    pub dead : (t : ℕ) → spawned (s.tasks t).state ≡ 0 → (s.tasks t).future ≡ false
    pub polled : (t : ℕ) → run_queued (s.tasks t).state ≡ 1 → (s.tasks t).poll_fn ≢ none
    pub owned :
        (t e : ℕ) → (s.tasks t).executor_ptr ≡ some e → (e < s.size) × ((s.tasks t).poll_fn ≢ none)

  pub record Inv (s : Spawner Out) : Type 0 where
    pub visible : Visible s
    pub linked : Linked s
    pub alive : Alive s
