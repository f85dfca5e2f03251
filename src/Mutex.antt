-- ===== src/Mutex.antt =====
-- modules/futures/src/mutex.rs: the async mutex with its bounded queue of waiters. A lock future is
-- named by its address. `futures f` is the future at an address, or `none` if there is none or it
-- is dropped: reading through a pointer to it is a panic here. Wakers are numbers.
pub mod Exclusion
pub mod Waiters
pub mod Polls
pub mod Stranded
mod Tests
use rt_async.Base.{
  ℕ, Bool, true, false, not, Option, none, some, List, [], ◌∷◌, ◌==◌, if◌then◌else◌, update,
}
use rt_async.Base.Outcome.{Outcome, done, panic, ◌>>=◌, unwrap}
use rt_async.External.{VecSeq}

-- `MutexLockFuture`
pub record LockFuture : Type 0 where
  pub queued : Bool
  pub waker : Option ℕ

-- `MutexInner` with its capacity `N`, and the lock futures that exist.
pub record Mutex (T : Type 0) : Type 0 where
  pub limit : ℕ
  pub locked : Bool
  pub value : T
  pub waiters : List ℕ
  pub futures : ℕ → Option LockFuture

pub data Poll : Type 0 where
  ready pending : Poll

module _ {T : Type 0} where
  unfoldable pub new : ℕ → T → Mutex T
  new limit value = record {
    limit = limit;
    locked = false;
    value = value;
    waiters = [];
    futures = λ f. none;
  }

  -- `lock`: a new future at the free address `f`
  unfoldable pub lock : Mutex T → ℕ → Mutex T
  lock m f = record m {
    futures = update m.futures f (some (record { queued = false; waker = none }));
  }

  -- `Deref` and `DerefMut` of a guard
  unfoldable pub deref : Mutex T → T
  deref m = m.value

  unfoldable pub deref_mut : Mutex T → (T → T) → Mutex T
  deref_mut m change = record m { value = change m.value }

-- The waiters but for one address.
abbrev pub without : VecSeq ℕ → List ℕ → ℕ → List ℕ
without vec waiters f = vec.retain (λ p. not (p == f)) waiters

module _ {T : Type 0} (vec : VecSeq ℕ) where
  acquire : Mutex T → ℕ → LockFuture → Mutex T
  acquire m f this =
      if this.queued
      then record m {
        locked = true;
        waiters = without vec m.waiters f;
        futures = update m.futures f (some (record this { waker = none }));
      }
      else record m { locked = true }

  enqueue : Mutex T → ℕ → ℕ → LockFuture → Outcome (Mutex T)
  enqueue m f cx this =
      if this.queued
      then done (record m { futures = update m.futures f (some (record this { waker = some cx })) })
      else do
        waiters ← unwrap (vec.push m.limit m.waiters f)
        done (record m {
          waiters = waiters;
          futures = update m.futures f (some (record { queued = true; waker = some cx }));
        })

  -- `poll` of the lock future at `f` by a task whose waker is `cx`; `ready` hands out a guard.
  unfoldable pub poll : Mutex T → ℕ → ℕ → Outcome (Mutex T × Poll)
  unfolding acquire enqueue
  poll m f cx = do
    this ← unwrap (m.futures f)
    (if m.locked
        then (do m' ← enqueue m f cx this; done (m', pending))
        else done (acquire m f this, ready))

  -- `Drop` of the lock future at `f`
  unfoldable pub drop_future : Mutex T → ℕ → Outcome (Mutex T)
  drop_future m f = do
    this ← unwrap (m.futures f)
    done (record m {
      waiters = (if this.queued then without vec m.waiters f else m.waiters);
      futures = update m.futures f none;
    })

  -- `Drop` of a guard, with the future whose waker is called, and the waker
  unfoldable pub drop_guard : Mutex T → Outcome (Mutex T × Option (ℕ × ℕ))
  drop_guard m = elim m.waiters [
    | [] ↦ done (record m { locked = false }, none)
    | _ ∷ _ ↦ do
      (f, rest) ← unwrap (vec.remove m.waiters 0)
      this ← unwrap (m.futures f)
      done (
        record m { locked = false; waiters = rest },
        elim this.waker [ none ↦ none | some w ↦ some (f, w) ],
      )
  ]
